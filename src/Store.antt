-- ===== src/Store.antt =====
-- crates/fieldnotes-store: the part that a sync run asks what the notebook holds.
pub mod Index
mod Tests
