-- ===== src/Protocol.antt =====
-- crates/fieldnotes-field-protocol: the boundary between core and a Field process.
pub mod Codes
pub mod Version
pub mod Value
pub mod Limits
pub mod Message
pub mod Declared
pub mod Handle
pub mod MediaTypes
pub mod Artifact
pub mod Framing
pub mod Session
mod Tests
