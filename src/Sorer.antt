-- ===== src/Sorer.antt =====
-- src/sorer: the reader of SoR files.
pub mod FieldArray
pub mod Fields
pub mod Parse
pub mod Columnar
pub mod Writer
mod Tests
