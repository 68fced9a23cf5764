-- ===== src/App/Sync.antt =====
-- crates/fieldnotes-app/src/sync: one collect run, from the Field's frames to the notebook. State has
-- the run's state and what the run asks of the notebook, Apply the artifacts of
-- one record, Records its other steps, Collect the
-- loop, Ending what follows it; the other modules have the proofs.
pub mod State
pub mod Apply
pub mod Records
pub mod Collect
pub mod Ending
pub mod Effects
pub mod Applied
pub mod Applying
pub mod Loops
pub mod Turns
pub mod Durable
pub mod Handshake
pub mod Removal
pub mod Authority
