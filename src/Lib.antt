-- ===== src/Lib.antt =====
-- Fieldnotes collects records from external sources through Field processes. This library models core's
-- side of that boundary: the collect session with its durability handshake, the parts that it stands on,
-- and the sync run that drives it and keeps the notebook. A Field writes frames on its standard output;
-- the frame reader cuts them into lines, the decoder (not modelled) makes events of them, the session checks each event and answers with an accepted record,
-- an offered checkpoint or a rejection; the sync run stores records and artifacts, keeps the source index,
-- reports records durable and commits or withholds the offer; at the end `finish` says how the run ended
-- and whether absence may be taken for deletion, and the sync run removes the notes that it may.
--
-- The files, by the code that they model:
--  * Prelude: shared types, Boolean tests, lists and texts (a `str` is the list of its UTF-8 bytes),
--    saturating 64-bit addition.
--  * Domain.Datetime: crates/fieldnotes-domain/src/datetime.rs, Date and Datetime parsing and Display for
--    Date. Domain.Registry: property/registry.rs there. Domain.Stems: field.rs, FieldStemRegistry.
--    Domain.NoteTypes: note_type.rs.
--    Domain.Ids: ids.rs, the parsers and texts of record and artifact IDs.
--  * Store.Index: crates/fieldnotes-store/src/source_index.rs, the index of the notes by source key.
--  * App.Sync: crates/fieldnotes-app/src/sync, collect in mod.rs with the reports of report.rs. State has
--    the run's state, Apply and Records apply_record with what it calls, Collect the loop and
--    commit_checkpoint, Ending the end of collect with remove_absent_notes. The notebook's files, the
--    kernel and the projection of a record to a note are the parameter `Outside`, whose calls take a world
--    to a result and a world; the child is the list of frames that it writes and how it is seen to exit.
--  * Protocol.Codes, Value, Message, Limits, Declared: the files of these names under
--    crates/fieldnotes-field-protocol/src. MediaTypes is the media-type part of limits.rs and grammar.rs.
--  * Protocol.Handle, Protocol.Artifact: artifact.rs there. The file system is the parameter `Staging`:
--    what symlink_metadata, open and the reads return. SHA-256 is a parameter.
--  * Protocol.Framing: framing.rs there, FrameReader::next_frame and StderrCapture. The standard output
--    is the list of what `fill_buf` returns; the UTF-8 check and the JSON parser are parameters.
--  * Protocol.Session: session.rs there, CollectSession. State has its fields and the checks that all
--    events pass, Records accept_record and accept_diagnostic, Checkpoints accept_checkpoint, Commit
--    record_durable, commit, withhold and note_rejection, Artifacts resolve_artifacts, Finish finish, Steps
--    accept and histories of calls. A `&mut self` method is a function from a session to its result and
--    the session that it leaves, also where it fails. The JSON encoder is the parameter `Serde`.
--  * Protocol.Version: version.rs there, the negotiation of a version.
--  * Sdk.Percent: crates/fieldnotes-field-sdk/src/percent.rs. Whether bytes are valid UTF-8 is a parameter.
--  * Fields.Base64: fields/fieldnotes-field-outlook-mail/src/base64.rs, the decoder.
--  * Protocol.Limits.Bounds has the minimums of the limits as tests/fixtures/protocol/proposed-v1/schemas/
--    common.schema.json states them, to compare limits.rs with. App.Sync.Handshake has the handshake
--    that the loop of collect keeps, as a relation on the frames and the session.
-- The other modules hold proofs; each says above its theorems what they state.
--
-- Loops are recursion on the list that they go through, so that no fuel is needed. Where the code adds
-- with saturation the model does; the counters and sequence numbers that the code adds to without it are
-- natural numbers, since the limits bound the counters and a number past 64 bits cannot be read. Sets and
-- maps are lists: the set of record numbers is ascending.
--
-- Not modelled: the texts of rejections; decoding, encoding and validation of messages; the process host
-- and the conformance harness; of the application what stands around collect (limits, windows, state
-- files, import, inspection), and the diagnostics in its report; the command line, credentials, the graph,
-- the note format, the store's files, the Microsoft Graph client, the rest of the SDK and of the Fields.
-- On Windows, a file's identity is its length alone; the model has the Unix one.
mod Prelude
pub mod Domain
pub mod Protocol
pub mod Store
pub mod App
pub mod Sdk
pub mod Fields
