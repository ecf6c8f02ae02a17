-- ===== src/Syntax/Parser/Tests.antt =====
-- syntax/parser.go: the parser at concrete inputs.
use thrift_ls.Common.{
  ℕ, ◌≡◌, refl, Bytes, List, [], ◌∷◌, ◌++◌, Option, codes, map, some, none, Returns, length, ◌-◌,
}
use thrift_ls.Syntax.Chars.{is_whitespace, is_ident_part}
use thrift_ls.Syntax.Cursor.{at_end, peek_byte, slice, advance_byte, advance_rune}
use thrift_ls.Syntax.Lexer.{
  lex, scan_trivia, scan_token, scan_whitespace, scan_line_comment, scan_block_comment,
  scan_identifier, scan_number, scan_string, to_line_end, to_comment_end, to_identifier_end,
  to_string_end, starts_line_comment, starts_block_comment, starts_number, symbol_token,
  identifier_kind, advance_bytes, is_escape, blank_lines_before,
}
use thrift_ls.Syntax.Number.{match_number}
use thrift_ls.Syntax.Token.{
  Token, TokenKind, Error, is_kind, kind_code, keyword_kind, symbol_kind, is_comment,
}
use thrift_ls.Syntax.Parser.State.Sealed.{Sealed, failures}
use thrift_ls.Syntax.Parser.Errors.{Rising, at_offset}
use thrift_ls.Syntax.Parser.Nodes.{Ordered, Tiled, parse_tokens-Ordered}
use thrift_ls.Syntax.Parser.Whole.{parse-Ordered, parse-Tiled, at_offset-parse}
use thrift_ls.Syntax.Parser.{parse, parse_tokens}
use thrift_ls.Syntax.Tree.{Node, Document}

-- A file with annotations, comments and a container type, and one with an error in each part.
abbrev sound : Bytes
sound =
    codes
      "include \"a.thrift\" /* c */ @A(1) struct S { 1: list<i32> x = [1, 2] (a = \"b\")} service T { oneway void f(1: i32 a) throws (1: E e)}"

abbrev broken : Bytes
broken = codes "struct S { 1: , 2: i32 x } $ union 5 enum E { A = 1"

abbrev nothing : Document
nothing = record { tokens = []; nodes = [] }

abbrev doc_of : Option (Document × List Error) → Document
doc_of (some (doc, errs)) = doc
doc_of none = nothing

abbrev errs_of : Option (Document × List Error) → List Error
errs_of (some (doc, errs)) = errs
errs_of none = []

abbrev tokens_of : Option (List Token × List Error) → List Token
tokens_of (some (toks, errs)) = toks
tokens_of none = []

abbrev lex_errs_of : Option (List Token × List Error) → List Error
lex_errs_of (some (toks, errs)) = errs
lex_errs_of none = []

abbrev ranges : List Node → List (ℕ × ℕ)
ranges ns = map (λ (n : Node). (n.base.first, n.base.last)) ns

-- The parser and the lexer with all their parts open.
parsed : Bytes → Option (Document × List Error)
unfolding parse lex scan_trivia scan_token scan_whitespace scan_line_comment scan_block_comment
    scan_identifier scan_number scan_string to_line_end to_comment_end to_identifier_end
    to_string_end starts_line_comment starts_block_comment starts_number symbol_token
    identifier_kind advance_bytes is_escape blank_lines_before is_whitespace is_ident_part at_end
    peek_byte slice advance_byte advance_rune match_number keyword_kind symbol_kind is_comment
parsed src = parse src

sound-ranges : ranges (doc_of (parsed sound)).nodes ≡ (0, 1) ∷ (3, 29) ∷ (30, 49) ∷ []
unfolding parsed
sound-ranges = refl

-- Behind a `union` without a name the parser skips to the end.
broken-ranges : ranges (doc_of (parsed broken)).nodes ≡ (0, 10) ∷ []
unfolding parsed
broken-ranges = refl

broken_offsets : map (λ (e : Error). e.offset) (errs_of (parsed broken)) ≡ 14 ∷ 27 ∷ 35 ∷ []
unfolding parsed
broken_offsets = refl

abbrev small : Bytes
small = codes "enum E{A=1}"

abbrev token : TokenKind → Bytes → ℕ → ℕ → Token
token k t o c = record { kind = k; text = t; offset = o; line = 1; col = c; blank_lines_before = 0 }

abbrev name : TokenKind
name = TokenKind.identifier

-- `union X enum E` with its last token.
abbrev some_tokens : List Token
some_tokens =
    token TokenKind.union (codes "union") 0 1
    ∷ token name (codes "X") 6 7
    ∷ token TokenKind.enum (codes "enum") 8 9
    ∷ token name (codes "E") 13 14
    ∷ token TokenKind.eof [] 14 15
    ∷ []

parse_tokens-Ordered_example :
    Returns (λ (doc, errs). Ordered 0 doc.nodes 4) (parse_tokens some_tokens)
unfolding Sealed is_kind kind_code
parse_tokens-Ordered_example = parse_tokens-Ordered some_tokens refl

parse-Ordered_example :
    Returns (λ (doc, errs). Ordered 0 doc.nodes (length doc.tokens - 1)) (parse broken)
parse-Ordered_example = parse-Ordered broken

parse-Tiled_example : Tiled (doc_of (parsed small)).tokens 0 (doc_of (parsed small)).nodes
unfolding parsed failures
parse-Tiled_example = parse-Tiled small (doc_of (parsed small)) (errs_of (parsed small)) refl refl

at_offset-parse_example :
    (errs : List Error) × (parse small ≡ some (doc_of (parsed small), errs))
    × Rising 0 errs
    × ((o : ℕ) → at_offset o errs ≡ at_offset o [] ++ at_offset o [])
unfolding parsed
at_offset-parse_example =
    at_offset-parse small (doc_of (parsed small)).tokens [] (doc_of (parsed small)) [] refl refl
