-- ===== src/Protocol/Framing.antt =====
-- crates/fieldnotes-field-protocol/src/framing.rs: the bounded reader of frames and the capture of
-- standard error. The standard output is the sequence of what `fill_buf` returns; the UTF-8 check and
-- the JSON parser are parameters. Sizes are those of a machine whose usize has 64 bits. The proofs
-- are in the child modules.
pub mod Lines
pub mod Reading
pub mod Capture
pub mod Frames
use fieldnotes.Prelude.{
  ℕ, suc, ◌+◌, ◌-◌, Text, Bool, true, false, not, ◌&&◌, Option, none, some, List, [], ◌∷◌, ◌++◌,
  length, take, drop, ltb, leb, ◌==◌, if◌then◌else◌, saturating_add,
}
use fieldnotes.Protocol.Codes.{
  RejectionCode, Result, ok, err, protocol_unexpected_order, protocol_limit_exceeded,
  protocol_invalid_utf8, protocol_not_json, protocol_oversized_frame, protocol_truncated_frame,
}

-- What `fill_buf` returns: buffered bytes, none of them at the end of the stream; an interruption; or
-- another error.
pub data Chunk : Type 0 where
  bytes : Text → Chunk
  interrupted failed : Chunk

-- BufRead::consume, which leaves the rest of the buffer for the next `fill_buf`.
unfoldable pub consume : ℕ → Text → List Chunk → List Chunk
consume n available rest = elim (drop n available) [ [] ↦ rest | b ∷ bs ↦ bytes (b ∷ bs) ∷ rest ]

abbrev pub next_index : Option ℕ → Option ℕ
next_index none = none
next_index (some i) = some (suc i)

-- iter().position(|byte| *byte == b'\n')
unfoldable pub position : Text → Option ℕ
position [] = none
position (b ∷ bs) = let later = next_index (position bs) in if b == 10 then some 0 else later

abbrev pub min : ℕ → ℕ → ℕ
min a b = if leb a b then a else b

-- How much of the buffer is looked at.
unfoldable pub horizon : ℕ → Text → Text → ℕ
horizon max_frame_bytes line available =
    min (length available) (saturating_add (max_frame_bytes - length line) 1)

-- FrameReader::read_line_bounded, from the bytes of the line that it has. Where it goes on, the
-- window was the whole buffer (Lines, `window_whole`), so that `consume` leaves nothing of it.
unfoldable pub read_line : ℕ → List Chunk → Text → Result (Option Text) × List Chunk
read_line max [] [] = (ok none, [])
read_line max [] (b ∷ bs) = (err protocol_truncated_frame, [])
read_line max (interrupted ∷ rest) line = read_line max rest line
read_line max (failed ∷ rest) line = (err protocol_truncated_frame, rest)
read_line max (bytes [] ∷ rest) [] = (ok none, bytes [] ∷ rest)
read_line max (bytes [] ∷ rest) (b ∷ bs) = (err protocol_truncated_frame, bytes [] ∷ rest)
read_line max (bytes (b ∷ bs) ∷ rest) line =
    let available = b ∷ bs in
    let window = take (horizon max line available) available in
    let onward = read_line max rest (line ++ window) in
    elim (position window) [
      | some index ↦
          if ltb max (saturating_add (length line) (suc index))
          then (err protocol_oversized_frame, bytes (b ∷ bs) ∷ rest)
          else (ok (some (line ++ take (suc index) window)), consume (suc index) available rest)
      | none ↦
          if ltb max (saturating_add (length line) (length window))
          then (err protocol_oversized_frame, bytes (b ∷ bs) ∷ rest)
          else onward
    ]

unfoldable pub read_line_bounded : ℕ → List Chunk → Result (Option Text) × List Chunk
unfolding read_line
read_line_bounded max source = read_line max source []

pub record FrameReader : Type 0 where
  pub source : List Chunk
  pub max_frame_bytes : ℕ
  pub max_total_bytes : ℕ
  pub total_bytes : ℕ
  pub poisoned : Bool

pub record RawFrame {ℓ} (V : Type ℓ) : Type ℓ where
  pub value : V
  pub wire_bytes : ℕ

-- trim_end_matches('\n')
unfoldable pub trim_end_lf : Text → Text
trim_end_lf [] = []
trim_end_lf (b ∷ bs) =
    let rest = trim_end_lf bs in
    elim rest [ [] ↦ if b == 10 then [] else b ∷ [] | c ∷ cs ↦ b ∷ c ∷ cs ]

module _ {V : Type 0} (is_utf8 : Text → Bool) (from_str : Text → Option V) where
  abbrev pub poison : FrameReader → FrameReader
  poison r = record r { poisoned = true }

  -- next_frame, once a line is counted.
  unfoldable pub decode_line : Text → FrameReader → Result (Option (RawFrame V)) × FrameReader
  decode_line line r =
      if ltb r.max_total_bytes r.total_bytes
      then (err protocol_limit_exceeded, poison r)
      else if not (is_utf8 line)
      then (err protocol_invalid_utf8, poison r)
      else elim (from_str (trim_end_lf line)) [
        | none ↦ (err protocol_not_json, poison r)
        | some value ↦ (ok (some (record { value = value; wire_bytes = length line })), r)
      ]

  -- next_frame, on what reading a line returned.
  unfoldable pub after_line :
      FrameReader → Result (Option Text) × List Chunk → Result (Option (RawFrame V)) × FrameReader
  unfolding decode_line
  after_line r (ok none, source) = (ok none, record r { source = source })
  after_line r (err code, source) = (err code, poison (record r { source = source }))
  after_line r (ok (some line), source) =
      decode_line line
        (record r { source = source; total_bytes = saturating_add r.total_bytes (length line) })

  -- FrameReader::next_frame
  unfoldable pub next_frame : FrameReader → Result (Option (RawFrame V)) × FrameReader
  unfolding after_line read_line_bounded
  next_frame r =
      if r.poisoned
      then (err protocol_unexpected_order, r)
      else after_line r (read_line_bounded r.max_frame_bytes r.source)

pub record StderrCapture : Type 0 where
  pub capacity : ℕ
  pub buffer : Text
  pub dropped : ℕ

-- StderrCapture::new
unfoldable pub new : ℕ → StderrCapture
new capacity = record { capacity = capacity; buffer = []; dropped = 0 }

-- The first step for a byte: room is made where the buffer is full.
unfoldable pub make_room : StderrCapture → StderrCapture
make_room c =
    if length c.buffer == c.capacity
    then record c { buffer = drop 1 c.buffer; dropped = saturating_add c.dropped 1 }
    else c

unfoldable pub push_byte : ℕ → StderrCapture → StderrCapture
unfolding make_room
push_byte byte c =
    let c' = make_room c in
    if ltb 0 c'.capacity
    then record c' { buffer = c'.buffer ++ (byte ∷ []) }
    else record c' { dropped = saturating_add c'.dropped 1 }

-- StderrCapture::push
unfoldable pub push : Text → StderrCapture → StderrCapture
unfolding push_byte
push [] c = c
push (b ∷ bs) c = push bs (push_byte b c)

-- StderrCapture::truncated
unfoldable pub truncated : StderrCapture → Bool
truncated c = ltb 0 c.dropped
