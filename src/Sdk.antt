-- ===== src/Sdk.antt =====
-- crates/fieldnotes-field-sdk: what the Field programs share.
pub mod Percent
mod Tests
