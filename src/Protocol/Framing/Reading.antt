-- ===== src/Protocol/Framing/Reading.antt =====
-- framing.rs, read_line_bounded: the line that is read depends on the bytes of the stream alone.
use fieldnotes.Prelude.{append_assoc, append_nil}
use fieldnotes.Prelude.{
  ℕ, suc, ◌+◌, ◌≤◌, ◌<◌, ◌≡◌, refl, sym, ap, ◌∙◌, subst, Text, Bool, true, false, Option, none,
  some, List, [], ◌∷◌, ◌++◌, arith, length, length-append, take, drop, ltb, if◌then◌else◌,
  saturating_add, u64_max,
}
use fieldnotes.Protocol.Codes.{Result, ok, err, protocol_oversized_frame, protocol_truncated_frame}
use fieldnotes.Protocol.Framing.{
  Chunk, bytes, interrupted, failed, consume, position, horizon, read_line, read_line_bounded,
}
use fieldnotes.Protocol.Framing.Lines.{
  joined, stream, in_front, split_line, unterminated, first_line, line_of, split-prefix,
  split-position, position-take, line_of-over, take-drop, length-take, position-length,
  position-append, sat_test, window_whole, stream-consume, joined-some,
}

-- The reader gives the first line of the bytes `t`, and leaves those after it.
record Reads (max : ℕ) (t : Text) (r : Result (Option Text) × List Chunk) : Type 0 where
  result : r.0 ≡ line_of max t
  left : (l : Text) → r.0 ≡ ok (some l) → (u : Text) × (stream r.1 ≡ some u) × (l ++ u ≡ t)

ended :
    (max : ℕ) (line : Text)
    → length line ≤ max
    → position line ≡ none
    → (b : ℕ) (bs : Text) → line ≡ b ∷ bs
    → line_of max line ≡ err protocol_truncated_frame
ended max line short open' b bs e =
    ap (λ o. first_line max o line)
      (subst (λ t. split_line t ≡ none) (append_nil line) (split-prefix line [] open'))
    ∙ subst (λ t. unterminated max t ≡ err protocol_truncated_frame) (sym e) (rw fits refl)
  where
    fits : ltb max (length (b ∷ bs)) ≡ false
    fits = ground (arith, ap length e, short)

-- The reader's window holds an LF.
found-Reads :
    (max : ℕ) (line available u : Text) (rest : List Chunk) (i : ℕ)
    → max < u64_max
    → position line ≡ none
    → stream rest ≡ some u
    → position (take (horizon max line available) available) ≡ some i
    → (before : List Chunk)
    → Reads max (line ++ (available ++ u)) (
        if ltb max (saturating_add (length line) (suc i))
        then (err protocol_oversized_frame, before)
        else (
          ok (some (line ++ take (suc i) (take (horizon max line available) available))),
          consume (suc i) available rest,
        ))
found-Reads max line available u rest i small open' ends found before =
    let (whole, same) = position-take (horizon max line available) available i found in
    let spec =
      split-prefix line (available ++ u) open'
      ∙ ap (in_front line) (split-position available u i whole) in
    rw same (
      go (take (suc i) available) spec
        (length-take (suc i) available (position-length available i whole))
        (ltb max (saturating_add (length line) (suc i))) refl refl)
  where
    remainder : stream (consume (suc i) available rest) ≡ some (drop (suc i) available ++ u)
    remainder = stream-consume (suc i) available rest ∙ ap (joined (drop (suc i) available)) ends

    test :
        (l : Text)
        → length l ≡ suc i
        → ltb max (length (line ++ l)) ≡ ltb max (saturating_add (length line) (suc i))
    test l long =
        ap (ltb max) (length-append line l ∙ ap (λ n. length line + n) long)
        ∙ sym (sat_test max (length line) (suc i) small)

    line_is : (y x : Text) → ◌≡◌ {A = Result (Option Text)} (ok (some y)) (ok (some x)) → y ≡ x
    line_is y x h = cc

    go :
        (l : Text)
        → split_line (line ++ (available ++ u)) ≡ some (line ++ l, drop (suc i) available ++ u)
        → length l ≡ suc i
        → (b : Bool) → ltb max (saturating_add (length line) (suc i)) ≡ b
        → l ≡ take (suc i) available
        → Reads max (line ++ (available ++ u)) (
            if b
            then (err protocol_oversized_frame, before)
            else (ok (some (line ++ l)), consume (suc i) available rest))
    go l spec long true over same = record {
      result = sym (
          ap (λ o. first_line max o (line ++ (available ++ u))) spec
          ∙ ap (λ b. if b then err protocol_oversized_frame else ok (some (line ++ l)))
              (test l long ∙ over));
      left = λ x h. cc;
    }
    go l spec long false fits same = record {
      result = sym (
          ap (λ o. first_line max o (line ++ (available ++ u))) spec
          ∙ ap (λ b. if b then err protocol_oversized_frame else ok (some (line ++ l)))
              (test l long ∙ fits));
      left = λ x h. (
        drop (suc i) available ++ u,
        remainder,
        ap (λ x. x ++ (drop (suc i) available ++ u)) (sym (line_is (line ++ l) x h))
            ∙ append_assoc line l _
            ∙ ap (λ y. line ++ y)
                (ap (λ y. y ++ (drop (suc i) available ++ u)) same
                  ∙ sym (append_assoc (take (suc i) available) (drop (suc i) available) u)
                  ∙ ap (λ y. y ++ u) (take-drop (suc i) available)),
      );
    }

-- The reader's window holds no LF.
missing-Reads :
    (max : ℕ) (line available u : Text) (before : List Chunk)
    → max < u64_max
    → length line ≤ max
    → position line ≡ none
    → position (take (horizon max line available) available) ≡ none
    → (onward : Result (Option Text) × List Chunk)
    → (take (horizon max line available) available ≡ available
        → length (line ++ available) ≤ max
        → position (line ++ available) ≡ none
        → Reads max ((line ++ available) ++ u) onward)
    → Reads max (line ++ (available ++ u)) (
        if ltb max
          (saturating_add (length line) (length (take (horizon max line available) available)))
        then (err protocol_oversized_frame, before)
        else onward)
missing-Reads max line available u before small short open' missing onward next =
    go (ltb max (saturating_add (length line) (length window))) refl
  where
    window : Text
    window = take (horizon max line available) available

    past : Text
    past = drop (horizon max line available) available ++ u

    same : (line ++ window) ++ past ≡ line ++ (available ++ u)
    same =
        append_assoc line window past
        ∙ ap (λ y. line ++ y)
            (sym (append_assoc window (drop (horizon max line available) available) u)
              ∙ ap (λ y. y ++ u) (take-drop (horizon max line available) available))

    long :
        ltb max (saturating_add (length line) (length window)) ≡ true
        → max < length (line ++ window)
    long over =
        ground
          (arith, over, sat_test max (length line) (length window) small, length-append line window)

    go :
        (b : Bool)
        → ltb max (saturating_add (length line) (length window)) ≡ b
        → Reads max
            (line ++ (available ++ u))
            (if b then (err protocol_oversized_frame, before) else onward)
    go true over = record {
      result = sym (
          ap (line_of max) (sym same)
          ∙ line_of-over max (line ++ window) past (position-append line window open' missing)
              (long over));
      left = λ x h. cc;
    }
    go false fits =
        let (whole, room) = window_whole max line available small short fits in
        subst (λ t. Reads max t onward) (append_assoc line available u)
          (next whole (omega (arith, room, length-append line available))
            (position-append line available open' (subst (λ t. position t ≡ none) whole missing)))

abbrev at_end : Text → List Chunk → Result (Option Text) × List Chunk
at_end [] source = (ok none, source)
at_end (b ∷ bs) source = (err protocol_truncated_frame, source)

at_end-Reads :
    (max : ℕ) (line t : Text) (source : List Chunk)
    → length line ≤ max
    → position line ≡ none
    → stream source ≡ some []
    → t ≡ []
    → Reads max (line ++ t) (at_end line source)
at_end-Reads max [] t source short open' ends h = rw h (record { result = refl; left = λ l e. cc })
at_end-Reads max (b ∷ bs) t source short open' ends h =
    rw (h, append_nil (b ∷ bs))
      (record { result = sym (ended max (b ∷ bs) short open' b bs refl); left = λ l e. cc })

nothing : (t : Text) → some [] ≡ some t → t ≡ []
nothing t h = cc

read_line-Reads :
    (max : ℕ) (source : List Chunk) (line t : Text)
    → max < u64_max
    → length line ≤ max
    → position line ≡ none
    → stream source ≡ some t
    → Reads max (line ++ t) (read_line max source line)
unfolding read_line
read_line-Reads max [] [] t small short open' h =
    at_end-Reads max [] t [] short open' refl (nothing t h)
read_line-Reads max [] (b ∷ bs) t small short open' h =
    at_end-Reads max (b ∷ bs) t [] short open' refl (nothing t h)
read_line-Reads max (interrupted ∷ rest) line t small short open' h =
    read_line-Reads max rest line t small short open' h
read_line-Reads max (failed ∷ rest) line t small short open' h = cc
read_line-Reads max (bytes [] ∷ rest) [] t small short open' h =
    at_end-Reads max [] t (bytes [] ∷ rest) short open' refl (nothing t h)
read_line-Reads max (bytes [] ∷ rest) (b ∷ bs) t small short open' h =
    at_end-Reads max (b ∷ bs) t (bytes [] ∷ rest) short open' refl (nothing t h)
read_line-Reads max (bytes (b ∷ bs) ∷ rest) line t small short open' h =
    let (u, ends, all) = joined-some (b ∷ bs) t (stream rest) h in
    subst (λ x. Reads max (line ++ x) (read_line max (bytes (b ∷ bs) ∷ rest) line)) (sym all)
      (go u ends (position (take (horizon max line (b ∷ bs)) (b ∷ bs))) refl
        (λ line' room open''. read_line-Reads max rest line' u small room open'' ends))
  where
    go :
        (u : Text)
        → stream rest ≡ some u
        → (o : Option ℕ) → position (take (horizon max line (b ∷ bs)) (b ∷ bs)) ≡ o
        → ((line' : Text)
            → length line' ≤ max
            → position line' ≡ none
            → Reads max (line' ++ u) (read_line max rest line'))
        → Reads max (line ++ ((b ∷ bs) ++ u)) (elim o as (λ _. Result (Option Text) × List Chunk) [
          | some index ↦
              if ltb max (saturating_add (length line) (suc index))
              then (err protocol_oversized_frame, bytes (b ∷ bs) ∷ rest)
              else (
                ok (some (line ++ take (suc index) (take (horizon max line (b ∷ bs)) (b ∷ bs)))),
                consume (suc index) (b ∷ bs) rest,
              )
          | none ↦
              if ltb max
                (saturating_add (length line) (length (take (horizon max line (b ∷ bs)) (b ∷ bs))))
              then (err protocol_oversized_frame, bytes (b ∷ bs) ∷ rest)
              else read_line max rest (line ++ take (horizon max line (b ∷ bs)) (b ∷ bs))
        ])
    go u ends (some i) found later = found-Reads max line (b ∷ bs) u rest i small open' ends found _
    go u ends none missing later =
        missing-Reads max line (b ∷ bs) u _ small short open' missing _ λ whole room open''.
          subst (λ w. Reads max ((line ++ (b ∷ bs)) ++ u) (read_line max rest (line ++ w)))
            (sym whole) (later (line ++ (b ∷ bs)) room open'')

-- Reading a line from a stream none of whose reads fails gives what the reference reader gives on its
-- bytes, however they are split over the reads and where these are interrupted: the first line with
-- its LF if it fits the ceiling, the end of the stream if no byte is left, and else a refusal, as
-- oversized if the line or the bytes without LF exceed the ceiling, as truncated if the stream ends
-- earlier. The ceiling is below the largest 64-bit integer.
pub read_line-line_of :
    (max : ℕ) (source : List Chunk) (t : Text)
    → max < u64_max
    → stream source ≡ some t
    → (read_line_bounded max source).0 ≡ line_of max t
unfolding read_line_bounded position
read_line-line_of max source t small h =
    (read_line-Reads max source [] t small (omega arith) refl h).result

-- After a line is read from a stream none of whose reads fails, the stream holds exactly the bytes
-- behind it. The ceiling is below the largest 64-bit integer.
pub read_line-remainder :
    (max : ℕ) (source : List Chunk) (t l : Text)
    → max < u64_max
    → stream source ≡ some t
    → (read_line_bounded max source).0 ≡ ok (some l)
    → (u : Text) × (stream (read_line_bounded max source).1 ≡ some u) × (l ++ u ≡ t)
unfolding read_line_bounded position
read_line-remainder max source t l small h e =
    (read_line-Reads max source [] t small (omega arith) refl h).left l e
