-- ===== src/Protocol/Handle/Grammar.antt =====
-- artifact.rs, ArtifactHandle::parse: what an accepted handle is.
use fieldnotes.Prelude.{
  ℕ, ◌≤◌, ◌≡◌, ◌↔◌, refl, Text, contains_text, Bool, true, false, not, ◌||◌, Option, none, some, [],
  ◌∷◌, arith, length, ltb, ◌==◌, get_or, All, if◌then◌else◌,
}
use fieldnotes.Protocol.Handle.{
  reserved_device_names, HandleResult, HandleError, handle, refused, is_lower_or_digit, is_allowed,
  first_disallowed, parse_handle,
}

-- The grammar: 1 to 64 bytes, each a lower-case letter, a digit, `_` or `-`, the first of them a
-- letter or a digit, and no name of a device.
pub record IsHandle (t : Text) : Type 0 where
  pub nonempty : 1 ≤ length t
  pub short : length t ≤ 64
  pub first : is_lower_or_digit (get_or t 0 0) ≡ true
  pub closed : All (λ b. is_allowed b ≡ true) t
  pub free : contains_text reserved_device_names t ≡ false

first_disallowed-none : (t : Text) → (first_disallowed t ≡ none) ↔ All (λ b. is_allowed b ≡ true) t
unfolding first_disallowed
first_disallowed-none [] = (λ _. tt, λ _. refl)
first_disallowed-none (b ∷ bs) = ground (arith, first_disallowed-none bs)

-- The tests of the parser, on what they computed.
module _ (t h : Text) where
  abbrev Outcome : Bool → Bool → Option ℕ → Bool → HandleResult
  Outcome size first closed reserved =
      if size
      then refused (HandleError.bad_length (length t))
      else if not first
      then refused HandleError.first_character
      else elim closed [
        | some b ↦ refused (HandleError.bad_character b)
        | none ↦ if reserved then refused HandleError.reserved_device_name else handle t
      ]

  outcome-handle :
      (size first : Bool) (closed : Option ℕ) (reserved : Bool)
      → (Outcome size first closed reserved ≡ handle h)
        ↔ ((h ≡ t) × (size ≡ false) × (first ≡ true) × (closed ≡ none) × (reserved ≡ false))
  outcome-handle true first closed reserved = ground arith
  outcome-handle false false closed reserved = ground arith
  outcome-handle false true (some b) reserved = ground arith
  outcome-handle false true none true = ground arith
  outcome-handle false true none false = ground arith

size_iff :
    (t : Text)
    → (((length t == 0) || ltb 64 (length t)) ≡ false) ↔ ((1 ≤ length t) × (length t ≤ 64))
size_iff t = ground arith

-- A handle is accepted exactly when it follows the grammar, and then it is the text itself.
pub parse_handle_iff : (t h : Text) → (parse_handle t ≡ handle h) ↔ ((h ≡ t) × IsHandle t)
unfolding parse_handle
parse_handle_iff t h = (to, from)
  where
    tests : (parse_handle t ≡ handle h) ↔ (
        (h ≡ t)
        × (((length t == 0) || ltb 64 (length t)) ≡ false)
        × (is_lower_or_digit (get_or t 0 0) ≡ true)
        × (first_disallowed t ≡ none)
        × (contains_text reserved_device_names t ≡ false))
    tests =
        outcome-handle t h ((length t == 0) || ltb 64 (length t)) (is_lower_or_digit (get_or t 0 0))
          (first_disallowed t) (contains_text reserved_device_names t)

    to : parse_handle t ≡ handle h → (h ≡ t) × IsHandle t
    to e =
        let (same, size, first, closed, free) = tests.0 e in
        let (nonempty, short) = (size_iff t).0 size in
        (
          same,
          record {
            nonempty = nonempty;
            short = short;
            first = first;
            closed = (first_disallowed-none t).0 closed;
            free = free;
          },
        )

    from : (h ≡ t) × IsHandle t → parse_handle t ≡ handle h
    from (e, g) = tests.1 (
      e,
      (size_iff t).1 (g.nonempty, g.short),
      g.first,
      (first_disallowed-none t).1 g.closed,
      g.free,
    )
