-- ===== src/Sema.antt =====
-- sema/: the analyses' results and what is done with them, and the values of enums.
pub mod Edit
pub mod Enum
pub mod Diagnostic
