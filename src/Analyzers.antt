-- ===== src/Analyzers.antt =====
-- analyzers/: the checks of a file.
pub mod Duplicate
pub mod FieldId
pub mod EnumValue
mod Tests
