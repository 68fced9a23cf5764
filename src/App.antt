-- ===== src/App.antt =====
-- crates/fieldnotes-app: what core does with a Field's run.
pub mod Sync
mod Tests
