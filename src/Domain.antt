-- ===== src/Domain.antt =====
-- crates/fieldnotes-domain: the vocabulary that the protocol crate takes from the domain.
pub mod Datetime
pub mod Ids
pub mod Registry
pub mod Stems
pub mod NoteTypes
mod Tests
