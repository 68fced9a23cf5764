-- ===== src/Protocol/Framing/Lines.antt =====
-- framing.rs, read_line_bounded: the reference reader, and the laws of its parts.
use fieldnotes.Prelude.{
  ℕ, zero, suc, ◌+◌, ◌-◌, ◌≤◌, ◌<◌, ◌≡◌, inl, inr, refl, ap, ◌∙◌, subst, Text, true, false, Option,
  none, some, List, [], ◌∷◌, ◌++◌, arith, length, length-append, take, drop, ltb, ◌==◌,
  if◌then◌else◌, saturating_add, u64_max, Bool-cases,
}
use fieldnotes.Protocol.Codes.{Result, ok, err, protocol_oversized_frame, protocol_truncated_frame}
use fieldnotes.Protocol.Framing.{
  Chunk, bytes, interrupted, failed, consume, next_index, position, horizon,
}

-- The bytes of a stream up to its end, if no read fails before it.
abbrev pub joined : Text → Option Text → Option Text
joined t none = none
joined t (some u) = some (t ++ u)

abbrev pub stream : List Chunk → Option Text
stream [] = some []
stream (interrupted ∷ rest) = stream rest
stream (failed ∷ rest) = none
stream (bytes [] ∷ rest) = some []
stream (bytes (b ∷ bs) ∷ rest) = joined (b ∷ bs) (stream rest)

-- The first line with its LF, and what follows it.
abbrev pub in_front : Text → Option (Text × Text) → Option (Text × Text)
in_front p none = none
in_front p (some (l, r)) = some (p ++ l, r)

abbrev pub split_line : Text → Option (Text × Text)
split_line [] = none
split_line (b ∷ bs) = if b == 10 then some (b ∷ [], bs) else in_front (b ∷ []) (split_line bs)

-- The reference reader: the first line if it fits, with the rest of the stream.
abbrev pub unterminated : ℕ → Text → Result (Option Text)
unterminated max [] = ok none
unterminated max (b ∷ bs) =
    if ltb max (length (b ∷ bs)) then err protocol_oversized_frame else err protocol_truncated_frame

abbrev pub first_line : ℕ → Option (Text × Text) → Text → Result (Option Text)
first_line max none t = unterminated max t
first_line max (some (l, r)) t =
    if ltb max (length l) then err protocol_oversized_frame else ok (some l)

abbrev pub line_of : ℕ → Text → Result (Option Text)
line_of max t = first_line max (split_line t) t

next_none : (o : Option ℕ) → next_index o ≡ none → o ≡ none
next_none none h = refl
next_none (some i) h = cc

next_some : (o : Option ℕ) (i : ℕ) → next_index o ≡ some i → (j : ℕ) × (o ≡ some j) × (i ≡ suc j)
next_some none i h = cc
next_some (some j) i h = (j, refl, ground arith)

in_front_twice :
    (b : ℕ) (p : Text) (o : Option (Text × Text))
    → in_front (b ∷ []) (in_front p o) ≡ in_front (b ∷ p) o
in_front_twice b p none = refl
in_front_twice b p (some x) = refl

in_front_nil : (o : Option (Text × Text)) → o ≡ in_front [] o
in_front_nil none = refl
in_front_nil (some x) = refl

-- A text without LF in front of another stays in front of its first line.
pub split-prefix :
    (p r : Text) → position p ≡ none → split_line (p ++ r) ≡ in_front p (split_line r)
unfolding position
split-prefix [] r h = in_front_nil (split_line r)
split-prefix (b ∷ p) r h = elim (Bool-cases (b == 10)) [
  | inl lf ↦ cc (h, lf)
  | inr other ↦ rw other (
      ap (in_front (b ∷ [])) (split-prefix p r (next_none (position p) (other_none other)))
      ∙ in_front_twice b p (split_line r))
]
  where
    other_none : (b == 10) ≡ false → next_index (position p) ≡ none
    other_none other = subst (λ t. (if t then some 0 else next_index (position p)) ≡ none) other h

pub split-position :
    (w v : Text) (i : ℕ)
    → position w ≡ some i
    → split_line (w ++ v) ≡ some (take (suc i) w, drop (suc i) w ++ v)
unfolding position
split-position [] v i h = ground arith
split-position (b ∷ w) v i h = elim (Bool-cases (b == 10)) [
  | inl lf ↦ let zero' : i ≡ 0 = ground arith in rw (lf, zero') refl
  | inr other ↦
      let (j, found, next) =
        next_some (position w) i
          (subst (λ t. (if t then some 0 else next_index (position w)) ≡ some i) other h) in
      rw (other, next) (ap (in_front (b ∷ [])) (split-position w v j found))
]

pub position-take :
    (h : ℕ) (w : Text) (i : ℕ)
    → position (take h w) ≡ some i
    → (position w ≡ some i) × (take (suc i) (take h w) ≡ take (suc i) w)
unfolding position
position-take zero w i e = ground arith
position-take (suc h) [] i e = ground arith
position-take (suc h) (b ∷ w) i e = elim (Bool-cases (b == 10)) [
  | inl lf ↦ let zero' : i ≡ 0 = ground arith in rw (lf, zero') (refl, refl)
  | inr other ↦
      let (j, found, next) =
        next_some (position (take h w)) i (
          subst (λ t. (if t then some 0 else next_index (position (take h w))) ≡ some i) other e) in
      let (whole, same) = position-take h w j found in
      rw (other, next) (ap next_index whole, ap (λ t. b ∷ t) same)
]

-- Bytes without LF beyond the ceiling are refused whatever follows.
pub line_of-over :
    (max : ℕ) (p r : Text)
    → position p ≡ none
    → max < length p
    → line_of max (p ++ r) ≡ err protocol_oversized_frame
line_of-over max p r h long =
    ap (λ o. first_line max o (p ++ r)) (split-prefix p r h) ∙ over (split_line r)
  where
    beyond : (t : Text) → ltb max (length (p ++ t)) ≡ true
    beyond t = ground (arith, length-append p t)

    ended :
        (t : Text) → ltb max (length t) ≡ true → unterminated max t ≡ err protocol_oversized_frame
    ended [] k = ground arith
    ended (b ∷ bs) k = rw k refl

    over :
        (o : Option (Text × Text))
        → first_line max (in_front p o) (p ++ r) ≡ err protocol_oversized_frame
    over none = ended (p ++ r) (beyond r)
    over (some (l, x)) = rw (beyond l) refl

take_all : (t : Text) → take (length t) t ≡ t
take_all [] = refl
take_all (b ∷ t) = ap (λ u. b ∷ u) (take_all t)

pub take-drop : (n : ℕ) (t : Text) → take n t ++ drop n t ≡ t
take-drop zero t = refl
take-drop (suc n) [] = refl
take-drop (suc n) (b ∷ t) = ap (λ u. b ∷ u) (take-drop n t)

pub length-take : (n : ℕ) (t : Text) → n ≤ length t → length (take n t) ≡ n
length-take zero t h = refl
length-take (suc n) [] h = ground arith
length-take (suc n) (b ∷ t) h = omega (arith, length-take n t (omega arith))

pub position-length : (w : Text) (i : ℕ) → position w ≡ some i → suc i ≤ length w
unfolding position
position-length [] i h = ground arith
position-length (b ∷ w) i h = elim (Bool-cases (b == 10)) [
  | inl lf ↦ let zero' : i ≡ 0 = ground arith in omega (arith, zero')
  | inr other ↦
      let (j, found, next) =
        next_some (position w) i
          (subst (λ t. (if t then some 0 else next_index (position w)) ≡ some i) other h) in
      omega (arith, next, position-length w j found)
]

pub position-append :
    (p w : Text) → position p ≡ none → position w ≡ none → position (p ++ w) ≡ none
unfolding position
position-append [] w h k = k
position-append (b ∷ p) w h k = elim (Bool-cases (b == 10)) [
  | inl lf ↦ cc (h, lf)
  | inr other ↦ rw other (
      ap next_index (
        position-append p w
          (next_none (position p)
            (subst (λ t. (if t then some 0 else next_index (position p)) ≡ none) other h))
          k))
]

horizon_short :
    (max : ℕ) (line available : Text)
    → max < u64_max
    → length line + length available ≤ max
    → horizon max line available ≡ length available
unfolding horizon saturating_add
horizon_short max line available small fits = ground arith

horizon_long :
    (max : ℕ) (line available : Text)
    → max < u64_max
    → length line ≤ max
    → max < length line + length available
    → horizon max line available ≡ suc (max - length line)
unfolding horizon saturating_add
horizon_long max line available small short over = ground arith

pub sat_test : (max a b : ℕ) → max < u64_max → ltb max (saturating_add a b) ≡ ltb max (a + b)
unfolding saturating_add
sat_test max a b small = ground arith

-- Where the reader goes on, its window was the whole buffer.
pub window_whole :
    (max : ℕ) (line available : Text)
    → max < u64_max
    → length line ≤ max
    → ltb max (saturating_add (length line) (length (take (horizon max line available) available)))
      ≡ false
    → (take (horizon max line available) available ≡ available)
      × (length line + length available ≤ max)
window_whole max line available small short fits =
    elim (Bool-cases (ltb max (length line + length available))) [
      | inr whole ↦ (
        ap (λ n. take n available) (horizon_short max line available small (ground arith))
            ∙ take_all available,
        ground arith,
      )
      | inl over ↦
          let h = horizon_long max line available small short (ground arith) in
          let long = length-take (suc (max - length line)) available (ground arith) in
          let test =
            sat_test max (length line) (length (take (horizon max line available) available))
              small in
          absurd (ground (arith, h, long, test, ap (λ n. length (take n available)) h))
    ]

pub stream-consume :
    (n : ℕ) (available : Text) (rest : List Chunk)
    → stream (consume n available rest) ≡ joined (drop n available) (stream rest)
unfolding consume
stream-consume n available rest = go (drop n available)
  where
    same : (o : Option Text) → o ≡ joined [] o
    same none = refl
    same (some u) = refl

    go :
        (d : Text)
        → stream (elim d as (λ _. List Chunk) [ [] ↦ rest | b ∷ bs ↦ bytes (b ∷ bs) ∷ rest ])
          ≡ joined d (stream rest)
    go [] = same (stream rest)
    go (b ∷ bs) = refl

pub joined-some :
    (a t : Text) (o : Option Text) → joined a o ≡ some t → (u : Text) × (o ≡ some u) × (t ≡ a ++ u)
joined-some a t none h = cc
joined-some a t (some u) h = (u, refl, ground arith)
