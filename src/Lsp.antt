-- ===== src/Lsp.antt =====
-- lsp/: the features of the language server.
pub mod TokenFacts
pub mod Semantic
