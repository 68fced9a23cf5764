-- ===== src/Protocol/Framing/Frames.antt =====
-- framing.rs, next_frame: a reader that refused once reads no more, and its byte bound.
use fieldnotes.Prelude.{
  ◌≤◌, ◌≡◌, refl, ap, ◌∙◌, Text, Bool, true, false, Option, none, some, List, arith, length, ltb,
  if◌then◌else◌, saturating_add, Bool-cases, inl, inr,
}
use fieldnotes.Protocol.Codes.{
  RejectionCode, Result, ok, err, protocol_unexpected_order, protocol_not_json,
}
use fieldnotes.Protocol.Framing.{
  Chunk, FrameReader, RawFrame, read_line_bounded, trim_end_lf, poison, decode_line, after_line,
  next_frame,
}

-- What one call of the reader leaves.
data Framed {V : Type 0} (r : FrameReader)
    : Result (Option (RawFrame V)) × FrameReader → Type 0 where
  refuses : (c : RejectionCode) (r' : FrameReader) → r'.poisoned ≡ true → Framed r (err c, r')
  ends : (r' : FrameReader) → r'.poisoned ≡ false → Framed r (ok none, r')
  gives :
      (f : RawFrame V) (r' : FrameReader)
      → r'.poisoned ≡ false
      → r'.max_total_bytes ≡ r.max_total_bytes
      → r'.total_bytes ≡ saturating_add r.total_bytes f.wire_bytes
      → r'.total_bytes ≤ r.max_total_bytes
      → Framed r (ok (some f), r')

module _ {V : Type 0} (is_utf8 : Text → Bool) (from_str : Text → Option V) where
  decode_line-Framed :
      (line : Text) (r s : FrameReader)
      → s.poisoned ≡ false
      → s.max_total_bytes ≡ r.max_total_bytes
      → s.total_bytes ≡ saturating_add r.total_bytes (length line)
      → Framed r (decode_line is_utf8 from_str line s)
  unfolding decode_line
  decode_line-Framed line r s clean same total =
      elim (Bool-cases (ltb s.max_total_bytes s.total_bytes)) [
        | inl over ↦ rw over (refuses _ _ refl)
        | inr within ↦ rw within (elim (Bool-cases (is_utf8 line)) [
          | inr other ↦ rw other (refuses _ _ refl)
          | inl utf8 ↦ rw utf8 (parsed (from_str (trim_end_lf line)) (ground (arith, same)))
        ])
      ]
    where
      parsed :
          (o : Option V)
          → s.total_bytes ≤ r.max_total_bytes
          → Framed r (elim o as (λ _. Result (Option (RawFrame V)) × FrameReader) [
            | none ↦ (err protocol_not_json, poison is_utf8 from_str s)
            | some value ↦ (ok (some (record { value = value; wire_bytes = length line })), s)
          ])
      parsed none within = refuses _ _ refl
      parsed (some value) within = gives _ s clean same total within

  next_frame-Framed : (r : FrameReader) → Framed r (next_frame is_utf8 from_str r)
  unfolding next_frame after_line
  next_frame-Framed r = tested r.poisoned refl
    where
      go :
          r.poisoned ≡ false
          → (x : Result (Option Text) × List Chunk) → Framed r (after_line is_utf8 from_str r x)
      go clean (ok none, source) = ends _ clean
      go clean (err c, source) = refuses c _ refl
      go clean (ok (some line), source) = decode_line-Framed line r _ clean refl refl

      tested :
          (b : Bool)
          → r.poisoned ≡ b
          → Framed r (
              if b
              then (err protocol_unexpected_order, r)
              else after_line is_utf8 from_str r (read_line_bounded r.max_frame_bytes r.source))
      tested true dead = refuses _ r dead
      tested false clean = go clean (read_line_bounded r.max_frame_bytes r.source)

  stopped :
      (r : FrameReader)
      → r.poisoned ≡ true
      → next_frame is_utf8 from_str r ≡ (err protocol_unexpected_order, r)
  unfolding next_frame
  stopped r dead = rw dead refl

  -- After one refusal, of a line, of the run's byte bound, of its encoding or of its syntax, the reader
  -- refuses every further frame and changes nothing.
  pub next_frame_err :
      (r : FrameReader) (c : RejectionCode)
      → (next_frame is_utf8 from_str r).0 ≡ err c
      → next_frame is_utf8 from_str (next_frame is_utf8 from_str r).1
        ≡ (err protocol_unexpected_order, (next_frame is_utf8 from_str r).1)
  next_frame_err r c = go (next_frame is_utf8 from_str r) (next_frame-Framed r)
    where
      go :
          (x : Result (Option (RawFrame V)) × FrameReader)
          → Framed r x
          → x.0 ≡ err c
          → next_frame is_utf8 from_str x.1 ≡ (err protocol_unexpected_order, x.1)
      go x (refuses d r' dead) h = stopped r' dead
      go x (ends r' clean) h = cc
      go x (gives f r' clean same total within) h = cc

  -- A frame that is given has its wire length counted, and the count is within the run's bound.
  pub next_frame_within :
      (r : FrameReader) (f : RawFrame V)
      → (next_frame is_utf8 from_str r).0 ≡ ok (some f)
      → ((next_frame is_utf8 from_str r).1.total_bytes ≡ saturating_add r.total_bytes f.wire_bytes)
        × ((next_frame is_utf8 from_str r).1.total_bytes ≤ r.max_total_bytes)
  next_frame_within r f = go (next_frame is_utf8 from_str r) (next_frame-Framed r)
    where
      given : (g : RawFrame V) → ok (some g) ≡ ok (some f) → g ≡ f
      given g h = cc

      go :
          (x : Result (Option (RawFrame V)) × FrameReader)
          → Framed r x
          → x.0 ≡ ok (some f)
          → (x.1.total_bytes ≡ saturating_add r.total_bytes f.wire_bytes)
            × (x.1.total_bytes ≤ r.max_total_bytes)
      go x (refuses c r' dead) h = cc
      go x (ends r' clean) h = cc
      go x (gives g r' clean same total within) h =
          (total ∙ ap (λ k. saturating_add r.total_bytes k.wire_bytes) (given g h), within)
