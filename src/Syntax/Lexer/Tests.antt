-- ===== src/Syntax/Lexer/Tests.antt =====
-- Runs of the lexer on small inputs.
use thrift_ls.Common.{
  List, [], ◌∷◌, Option, none, some, Bytes, codes, map, All, ◌+◌, ◌≡◌, refl, Returns,
}
use thrift_ls.Syntax.Chars.{is_whitespace, is_ident_part}
use thrift_ls.Syntax.Cursor.{at_end, peek_byte, slice, advance_byte, advance_rune}
use thrift_ls.Syntax.Cursor.Lines.{line_breaks}
use thrift_ls.Syntax.Lexer.Lossless.{Tiling, lex-Tiling, lex-EndsWithEof, lex-lines}
use thrift_ls.Syntax.Lexer.Run.{EndsWithEof}
use thrift_ls.Syntax.Lexer.{
  lex, scan_trivia, scan_token, scan_whitespace, scan_line_comment, scan_block_comment,
  scan_identifier, scan_number, scan_string, to_line_end, to_comment_end, to_identifier_end,
  to_string_end, starts_line_comment, starts_block_comment, starts_number, symbol_token,
  identifier_kind, advance_bytes, is_escape, blank_lines_before,
}
use thrift_ls.Syntax.Number.{match_number}
use thrift_ls.Syntax.Token.{Token, Error, keyword_kind, symbol_kind}

abbrev texts : Option (List Token × List Error) → List Bytes
texts none = []
texts (some (ts, es)) = map (λ t. t.text) ts

-- The lexer with all its parts open.
lex_texts : Bytes → List Bytes
unfolding lex scan_trivia scan_token scan_whitespace scan_line_comment scan_block_comment
    scan_identifier scan_number scan_string to_line_end to_comment_end to_identifier_end
    to_string_end starts_line_comment starts_block_comment starts_number symbol_token
    identifier_kind advance_bytes is_escape blank_lines_before is_whitespace is_ident_part at_end
    peek_byte slice advance_byte advance_rune match_number keyword_kind symbol_kind
lex_texts src = texts (lex src)

sample_texts :
    lex_texts (codes "// c\n\nstruct a.b { 1: i32 x = -0x1F } /* d */ '\\n' 1e5\n")
    ≡ codes "// c"
      ∷ codes "struct"
      ∷ codes "a.b"
      ∷ codes "{"
      ∷ codes "1"
      ∷ codes ":"
      ∷ codes "i32"
      ∷ codes "x"
      ∷ codes "="
      ∷ codes "-0x1F"
      ∷ codes "}"
      ∷ codes "/* d */"
      ∷ codes "'\\n'"
      ∷ codes "1e5"
      ∷ []
      ∷ []
unfolding lex_texts
sample_texts = refl

abbrev two_lines : Bytes
two_lines = codes "/* a\n*/ enum E {}\n\n$ x"

lex-Tiling_example : Returns (λ r. Tiling (r.1 ≡ []) 0 two_lines r.0) (lex two_lines)
lex-Tiling_example = lex-Tiling two_lines

lex-EndsWithEof_example : Returns (λ r. EndsWithEof r.0) (lex two_lines)
lex-EndsWithEof_example = lex-EndsWithEof two_lines

lex-lines_example :
    Returns (λ r. All (λ t. t.line ≡ 1 + line_breaks t.offset two_lines) r.0) (lex two_lines)
lex-lines_example = lex-lines two_lines
