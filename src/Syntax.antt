-- ===== src/Syntax.antt =====
-- The package `syntax`: tokens, the lexer and source positions (syntax/lexer.go), the tree
-- (syntax/ast.go) and the parser (syntax/parser.go).
pub mod Token
pub mod Chars
pub mod Cursor
pub mod Number
pub mod Lexer
pub mod Tree
pub mod Parser
pub mod Position
pub mod Accessors
