-- ===== src/Protocol/Version.antt =====
-- crates/fieldnotes-field-protocol/src/version.rs: version negotiation. A list of versions is a list of
-- numbers.
use fieldnotes.Prelude.{
  ℕ, ◌≤◌, ◌≡◌, ◌≢◌, refl, ap, Bool, true, false, not, Option, none, some, List, [], ◌∷◌, leb, ltb,
  ◌==◌, if◌then◌else◌, arith, Bool-cases, inl, inr, ==_iff,
}

-- MAX_PROTOCOL_REVISION
abbrev pub max_protocol_revision : ℕ
max_protocol_revision = 4_095

pub record Negotiation : Type 0 where
  pub version : ℕ
  pub revision : ℕ

-- Negotiation::admits_revision
unfoldable pub admits_revision : Negotiation → ℕ → Bool
admits_revision n revision = leb revision n.revision

pub data NegotiationError : Type 0 where
  no_shared_version : List ℕ → List ℕ → NegotiationError
  selected_unoffered_version selection_not_self_consistent : ℕ → List ℕ → NegotiationError
  revision_out_of_range : ℕ → NegotiationError

pub data NegotiationResult : Type 0 where
  settled : Negotiation → NegotiationResult
  fails : NegotiationError → NegotiationResult

-- slice::contains
unfoldable pub contains : List ℕ → ℕ → Bool
contains [] v = false
contains (x ∷ xs) v = let rest = contains xs v in if x == v then true else rest

-- Iterator::max, of the first member and the maximum of the rest
unfoldable pub max_with : ℕ → Option ℕ → Option ℕ
max_with v none = some v
max_with v (some w) = if ltb w v then some v else some w

unfoldable pub select_version : List ℕ → List ℕ → Option ℕ
unfolding max_with
select_version [] field_supports = none
select_version (v ∷ core_offered) field_supports =
    let rest = select_version core_offered field_supports in
    if contains field_supports v then max_with v rest else rest

-- u16::min
unfoldable pub min : ℕ → ℕ → ℕ
min a b = if leb a b then a else b

abbrev pub unoffered : Option ℕ → ℕ → List ℕ → List ℕ → NegotiationError
unoffered none selected core_offered field_supports = no_shared_version core_offered field_supports
unoffered (some v) selected core_offered field_supports =
    selected_unoffered_version selected core_offered

unfoldable pub negotiate : List ℕ → ℕ → ℕ → ℕ → List ℕ → NegotiationResult
negotiate core_offered core_max_revision field_selected field_revision field_supports =
    if ltb max_protocol_revision core_max_revision
    then fails (revision_out_of_range core_max_revision)
    else if ltb max_protocol_revision field_revision
    then fails (revision_out_of_range field_revision)
    else if not (contains field_supports field_selected)
    then fails (selection_not_self_consistent field_selected field_supports)
    else if not (contains core_offered field_selected)
    then fails (
        unoffered (select_version core_offered field_supports) field_selected core_offered
          field_supports)
    else settled
        (record { version = field_selected; revision = min core_max_revision field_revision })

-- What `select_version` finds: a version of both lists that no other version of both lists exceeds.
record Selected (core_offered field_supports : List ℕ) (v : ℕ) : Type 0 where
  offered : contains core_offered v ≡ true
  supported : contains field_supports v ≡ true
  highest : (w : ℕ) → contains core_offered w ≡ true → contains field_supports w ≡ true → w ≤ v

-- What core makes of the Field's answer, by what `select_version` finds.
abbrev pub Settles : List ℕ → List ℕ → ℕ → ℕ → Option ℕ → Type 0
Settles cs fs r r' none =
    (selected : ℕ) (n : Negotiation) → negotiate cs r selected r' fs ≢ settled n
Settles cs fs r r' (some v) =
    (negotiate cs r v r' fs ≡ settled (record { version = v; revision = min r r' }))
    × ((w : ℕ) → contains cs w ≡ true → contains fs w ≡ true → w ≤ v)

abbrev Best : List ℕ → List ℕ → Option ℕ → Type 0
Best core_offered field_supports none =
    (w : ℕ) → contains core_offered w ≡ true → contains field_supports w ≡ false
Best core_offered field_supports (some v) = Selected core_offered field_supports v

same_member : (u w : ℕ) (fs : List ℕ) → (u == w) ≡ true → contains fs u ≡ contains fs w
same_member u w fs h = ap (contains fs) ((==_iff u w).0 h)

-- A version that the Field does not support changes nothing.
skip-Best :
    (u : ℕ) (us fs : List ℕ) (o : Option ℕ)
    → contains fs u ≡ false
    → Best us fs o
    → Best (u ∷ us) fs o
unfolding contains
skip-Best u us fs none h best = λ w c. ground (arith, best w, same_member u w fs)
skip-Best u us fs (some v) h best = record {
  offered = ground (arith, best.offered);
  supported = best.supported;
  highest = λ w c d. ground (arith, best.highest w, same_member u w fs);
}

-- One that it supports is compared with the best of the rest.
take-Best :
    (u : ℕ) (us fs : List ℕ) (o : Option ℕ)
    → contains fs u ≡ true
    → Best us fs o
    → Best (u ∷ us) fs (max_with u o)
unfolding contains max_with
take-Best u us fs none h best = record {
  offered = ground arith;
  supported = h;
  highest = λ w c d. ground (arith, best w, ==_iff u w);
}
take-Best u us fs (some v) h best = elim (Bool-cases (ltb v u)) [
  | inl above ↦ rw above (record {
    offered = ground arith;
    supported = h;
    highest = λ w c d. ground (arith, above, best.highest w, ==_iff u w);
  })
  | inr below ↦ rw below (record {
    offered = ground (arith, best.offered);
    supported = best.supported;
    highest = λ w c d. ground (arith, below, best.highest w, ==_iff u w);
  })
]

select_version-Best :
    (core_offered field_supports : List ℕ)
    → Best core_offered field_supports (select_version core_offered field_supports)
unfolding select_version
select_version-Best [] fs = λ w c. unfold contains in cc
select_version-Best (u ∷ us) fs = elim (Bool-cases (contains fs u)) [
  | inl supported ↦ rw supported (take-Best u us fs _ supported (select_version-Best us fs))
  | inr unsupported ↦ rw unsupported (skip-Best u us fs _ unsupported (select_version-Best us fs))
]

-- Where the Field answers with the version that `select_version` finds, and both revisions are within the
-- bound, core settles on that version and the lower revision; no version that both support is higher.
-- Where `select_version` finds none, core settles on nothing, whatever the Field answers.
pub select_version-negotiate :
    (core_offered field_supports : List ℕ) (core_max_revision field_revision : ℕ)
    → core_max_revision ≤ max_protocol_revision
    → field_revision ≤ max_protocol_revision
    → Settles core_offered field_supports core_max_revision field_revision
        (select_version core_offered field_supports)
unfolding negotiate
select_version-negotiate cs fs r r' h h' = go (select_version cs fs) (select_version-Best cs fs)
  where
    core_within : ltb max_protocol_revision r ≡ false
    core_within = ground (arith, h)

    field_within : ltb max_protocol_revision r' ≡ false
    field_within = ground (arith, h')

    go : (o : Option ℕ) → Best cs fs o → Settles cs fs r r' o
    go none best = λ selected n e. ground (arith, e, best selected)
    go (some v) best =
        (rw (core_within, field_within, best.supported, best.offered) refl, best.highest)
