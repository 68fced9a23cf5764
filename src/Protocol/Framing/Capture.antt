-- ===== src/Protocol/Framing/Capture.antt =====
-- framing.rs, StderrCapture: what the ring buffer keeps.
use fieldnotes.Prelude.{append_assoc, append_nil}
use fieldnotes.Prelude.{
  ℕ, zero, suc, ◌+◌, ◌-◌, ◌*◌, ◌≤◌, ◌<◌, ◌≡◌, inl, inr, refl, sym, ap, ◌∙◌, subst, Text, true, List,
  [], ◌∷◌, ◌++◌, arith, length, length-append, length-drop, drop, ltb, ◌==◌, saturating_add,
  saturating_add_exact, u64_max, Bool-cases,
}
use fieldnotes.Protocol.Framing.{StderrCapture, new, make_room, push_byte, push}

-- The last `n` bytes.
abbrev pub last_bytes : ℕ → Text → Text
last_bytes n t = drop (length t - n) t

drop_append :
    (n : ℕ) (t : Text) (b : ℕ) → n ≤ length t → drop n (t ++ (b ∷ [])) ≡ drop n t ++ (b ∷ [])
drop_append zero t b h = refl
drop_append (suc n) [] b h = ground arith
drop_append (suc n) (x ∷ t) b h = drop_append n t b (omega arith)

drop-drop : (n : ℕ) (t : Text) → drop 1 (drop n t) ≡ drop (suc n) t
drop-drop zero t = refl
drop-drop (suc n) [] = refl
drop-drop (suc n) (x ∷ t) = drop-drop n t

drop_nil : (n : ℕ) → ◌≡◌ {A = Text} (drop n []) []
drop_nil zero = refl
drop_nil (suc n) = refl

-- A capture that has seen `seen`.
pub record Holds (c : StderrCapture) (capacity : ℕ) (seen : Text) : Type 0 where
  pub size : c.capacity ≡ capacity
  pub kept : c.buffer ≡ last_bytes capacity seen
  pub lost : c.dropped ≡ length seen - capacity

kept_length :
    (c : StderrCapture) (capacity : ℕ) (seen : Text)
    → Holds c capacity seen
    → length c.buffer ≡ length seen - (length seen - capacity)
kept_length c capacity seen v = ap length v.kept ∙ length-drop (length seen - capacity) seen

push_byte-Holds :
    (c : StderrCapture) (capacity : ℕ) (seen : Text) (b : ℕ)
    → 0 < capacity
    → length seen + 1 ≤ u64_max
    → Holds c capacity seen
    → Holds (push_byte b c) capacity (seen ++ (b ∷ []))
unfolding push_byte make_room
push_byte-Holds c capacity seen b room small v = elim (Bool-cases (length c.buffer == c.capacity)) [
  | inl full ↦
      let long : capacity ≤ length seen = ground (arith, v.size, kept_length c capacity seen v) in
      let keeps : drop 1 c.buffer ++ (b ∷ []) ≡ last_bytes capacity (seen ++ (b ∷ [])) =
        ap (λ t. drop 1 t ++ (b ∷ [])) v.kept
        ∙ ap (λ t. t ++ (b ∷ [])) (drop-drop (length seen - capacity) seen)
        ∙ sym (drop_append (suc (length seen - capacity)) seen b (omega arith))
        ∙ ap (λ n. drop n (seen ++ (b ∷ []))) {x = suc (length seen - capacity)}
            (omega (arith, length-append seen (b ∷ []))) in
      rw (full, has_room)
        (record {
          size = v.size;
          kept = keeps;
          lost =
              saturating_add_exact c.dropped 1 (omega (arith, v.lost))
              ∙ omega (arith, v.lost, length-append seen (b ∷ []));
        })
  | inr other ↦
      let short : length seen < capacity = ground (arith, v.size, kept_length c capacity seen v) in
      let keeps : c.buffer ++ (b ∷ []) ≡ last_bytes capacity (seen ++ (b ∷ [])) =
        ap (λ t. t ++ (b ∷ [])) v.kept
        ∙ sym (drop_append (length seen - capacity) seen b (omega arith))
        ∙ ap (λ n. drop n (seen ++ (b ∷ []))) {x = length seen - capacity}
            (omega (arith, length-append seen (b ∷ []))) in
      rw (other, has_room)
        (record {
          size = v.size;
          kept = keeps;
          lost = omega (arith, v.lost, length-append seen (b ∷ []));
        })
]
  where
    has_room : ltb 0 c.capacity ≡ true
    has_room = ground (arith, v.size)

push-Holds :
    (bs : Text) (c : StderrCapture) (capacity : ℕ) (seen : Text)
    → 0 < capacity
    → length seen + length bs ≤ u64_max
    → Holds c capacity seen
    → Holds (push bs c) capacity (seen ++ bs)
unfolding push
push-Holds [] c capacity seen room small v = subst (Holds c capacity) (sym (append_nil seen)) v
push-Holds (b ∷ bs) c capacity seen room small v =
    subst (Holds (push bs (push_byte b c)) capacity) (append_assoc seen (b ∷ []) bs) (
      push-Holds bs (push_byte b c) capacity (seen ++ (b ∷ [])) room
        (omega (arith, length-append seen (b ∷ [])))
        (push_byte-Holds c capacity seen b room (omega arith) v))

abbrev pub pushed : List Text → StderrCapture → StderrCapture
pushed [] c = c
pushed (t ∷ ts) c = pushed ts (push t c)

abbrev pub joined : List Text → Text
joined [] = []
joined (t ∷ ts) = t ++ joined ts

pushed-Holds :
    (ts : List Text) (c : StderrCapture) (capacity : ℕ) (seen : Text)
    → 0 < capacity
    → length seen + length (joined ts) ≤ u64_max
    → Holds c capacity seen
    → Holds (pushed ts c) capacity (seen ++ joined ts)
pushed-Holds [] c capacity seen room small v = subst (Holds c capacity) (sym (append_nil seen)) v
pushed-Holds (t ∷ ts) c capacity seen room small v =
    subst (Holds (pushed ts (push t c)) capacity) (append_assoc seen t (joined ts)) (
      pushed-Holds ts (push t c) capacity (seen ++ t) room
        (omega (arith, length-append seen t, length-append t (joined ts)))
        (push-Holds t c capacity seen room (omega (arith, length-append t (joined ts))) v))

-- A capture of positive capacity holds exactly the last bytes that were pushed, at most as many as its
-- capacity, and counts the others as dropped, however the bytes were split over the pushes; their
-- number fits 64 bits.
pub pushed_last :
    (capacity : ℕ) (ts : List Text)
    → 0 < capacity
    → length (joined ts) ≤ u64_max
    → ((pushed ts (new capacity)).buffer ≡ last_bytes capacity (joined ts))
      × ((pushed ts (new capacity)).dropped ≡ length (joined ts) - capacity)
unfolding new
pushed_last capacity ts room small =
    let v =
      pushed-Holds ts (new capacity) capacity [] room (omega arith)
        (record { size = refl; kept = sym (drop_nil (0 - capacity)); lost = omega arith }) in
    (v.kept, v.lost)

twice :
    (bs : Text) (n : ℕ)
    → n + 2 * length bs ≤ u64_max
    → push bs (record { capacity = 0; buffer = []; dropped = n })
      ≡ record { capacity = 0; buffer = []; dropped = n + 2 * length bs }
unfolding push push_byte make_room
twice [] n h = ap (λ m. record { capacity = 0; buffer = []; dropped = m }) (omega arith)
twice (b ∷ bs) n h =
    ap (λ m. push bs (record { capacity = 0; buffer = []; dropped = m })) two_more
    ∙ twice bs (n + 2) (omega arith)
    ∙ ap (λ m. record { capacity = 0; buffer = []; dropped = m }) (omega arith)
  where
    two_more : saturating_add (saturating_add n 1) 1 ≡ n + 2
    two_more =
        ap (λ m. saturating_add m 1) (saturating_add_exact n 1 (omega arith))
        ∙ saturating_add_exact (n + 1) 1 (omega arith)
        ∙ omega arith

-- A capture of capacity 0 keeps nothing and counts every byte twice, as long as that fits 64 bits.
pub push_nothing_kept :
    (bs : Text)
    → 2 * length bs ≤ u64_max
    → ((push bs (new 0)).buffer ≡ []) × ((push bs (new 0)).dropped ≡ 2 * length bs)
unfolding new
push_nothing_kept bs h =
    let e = twice bs 0 (omega arith) in (ap (λ c. c.buffer) e, ap (λ c. c.dropped) e ∙ omega arith)
