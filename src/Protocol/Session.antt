-- ===== src/Protocol/Session.antt =====
-- crates/fieldnotes-field-protocol/src/session.rs: core's side of one collect run. State has the
-- session and its actions, Records, Checkpoints, Commit, Artifacts and Finish the operations, Steps
-- the histories of calls; the other modules have the proofs.
pub mod State
pub mod Records
pub mod Checkpoints
pub mod Commit
pub mod Artifacts
pub mod Finish
pub mod Steps
pub mod Admissible
pub mod Sets
pub mod Outcomes
pub mod Offers
pub mod Decisions
pub mod Invariant
pub mod Closed
pub mod Preserved
pub mod Histories
pub mod Deletion
pub mod Rejections
pub mod Commitment
pub mod Acceptance
pub mod Refusals
pub mod Order
pub mod StaleClaim
pub mod Durability
pub mod Samples
mod Tests
pub mod Budget
pub mod Charges
pub mod Ready
