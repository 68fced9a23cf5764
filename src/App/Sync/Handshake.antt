-- ===== src/App/Sync/Handshake.antt =====
-- sync/mod.rs, collect's loop, as the handshake that the protocol asks core for: what the session does at
-- each frame, in the order of the frames, and whether the loop goes on after it.
pub mod Answered
pub mod Kept
use fieldnotes.Prelude.{ℕ, ◌≡◌, Bool, true, false, List, [], ◌∷◌}
use fieldnotes.Protocol.Codes.{RejectionCode, ok, err}
use fieldnotes.Protocol.Message.{FieldEvent, RecordEvent, Severity, record_event}
use fieldnotes.Protocol.Session.State.{Session, CheckpointOffer}
use fieldnotes.Protocol.Session.Records.{Serde, AcceptedRecord}
use fieldnotes.Protocol.Session.Commit.{commit, cursor_of, granted, record_durable, note_rejection}
use fieldnotes.Protocol.Session.Steps.{accepted_record, checkpoint, diagnostic, accept}
use fieldnotes.Protocol.Session.Charges.{charged}
use fieldnotes.App.Sync.Applied.{Charge}
use fieldnotes.App.Sync.Collect.{Frame, decoded, broken}

-- What a frame does to the session, and whether the loop ends with it.
pub data Answers (serde : Serde) : Frame → Session → Session → Bool → Type 0 where
  -- A frame that cannot be read fails the run.
  broken_frame :
      (code : RejectionCode) (s : Session) → Answers serde (broken code) s (note_rejection s) true
  -- So does an event that the session refuses; what `accept` leaves is kept.
  refused_event :
      (e : FieldEvent) (code : RejectionCode) (s t : Session)
      → accept serde e s ≡ (err code, t)
      → Answers serde (decoded e) s t true
  -- An accepted record is made durable, before the next frame, with its artifacts charged.
  durable_record :
      (event : RecordEvent) (a : AcceptedRecord) (s t : Session) (charge : Charge serde t)
      → accept serde (record_event event) s ≡ (ok (accepted_record a), t)
      → Answers serde
          (decoded (record_event event))
          s
          (record_durable a.seq (charged charge.amount t))
          false
  -- Or it cannot be stored, is not made durable, and ends the loop.
  failed_record :
      (event : RecordEvent) (a : AcceptedRecord) (s t : Session) (staged : ℕ) (dead : Bool)
      → accept serde (record_event event) s ≡ (ok (accepted_record a), t)
      → Answers serde
          (decoded (record_event event))
          s
          (record (charged staged t) { rejected = dead })
          true
  -- An accepted checkpoint is committed at once, and the session grants it.
  granted_offer :
      (e : FieldEvent) (o : CheckpointOffer) (s t u : Session)
      → accept serde e s ≡ (ok (checkpoint o), t)
      → commit o t ≡ (granted (cursor_of o), u)
      → Answers serde (decoded e) s u false
  passed_diagnostic :
      (e : FieldEvent) (seq : ℕ) (severity : Severity) (s t : Session)
      → accept serde e s ≡ (ok (diagnostic seq severity), t)
      → Answers serde (decoded e) s t false

-- The frames answered in their order, up to the first that ends the loop.
pub data Handshake (serde : Serde) : List Frame → Session → Session → Bool → Type 0 where
  reads_all : (s : Session) → Handshake serde [] s s false
  goes_on :
      (f : Frame) (fs : List Frame) (s t u : Session) (b : Bool)
      → Answers serde f s t false
      → Handshake serde fs t u b
      → Handshake serde (f ∷ fs) s u b
  ends_at :
      (f : Frame) (fs : List Frame) (s t : Session)
      → Answers serde f s t true
      → Handshake serde (f ∷ fs) s t true
