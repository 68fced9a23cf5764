-- ===== src/Fields.antt =====
-- fields: the Field programs.
pub mod Base64
mod Tests
