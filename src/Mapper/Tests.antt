-- ===== src/Mapper/Tests.antt =====
-- mapper/mapper.go on a small content with a CRLF and a character of two UTF-16 units.
use thrift_ls.Common.Int.{pos}
use thrift_ls.Common.{◌≡◌, refl, [], ◌∷◌, ◌++◌, none, some, Bytes, codes, length, arith, ◌>>=◌}
use thrift_ls.Mapper.Columns.{StaysOnLine, to_parser_position-StaysOnLine}
use thrift_ls.Mapper.Lines.{newlines, last_line}
use thrift_ls.Mapper.RoundTrip.{to_lsp_position-to_parser_position}
use thrift_ls.Mapper.Crlf.{before_crlf}
use thrift_ls.Mapper.Places.{
  utf16, expected_position, to_lsp_position-expected_position, to_lsp_position-lsp_end_position,
}
use thrift_ls.Mapper.{to_lsp_position, to_parser_position, lsp_end_position, non_ascii}

-- U+1F600 is four bytes and two units.
abbrev content : Bytes
content = codes "ab\r\nc" ++ (0xF0 ∷ 0x9F ∷ 0x98 ∷ 0x80 ∷ []) ++ codes "d\ne"

to_lsp_run : to_lsp_position content (pos 9) ≡ some (record { line = 1; character = 3 })
unfolding to_lsp_position
to_lsp_run = refl

-- A character past the end of the line stays in front of the CRLF.
to_parser_run :
    to_parser_position content (record { line = 0; character = 7 })
    ≡ some (record { line = 1; col = 3; offset = 2 })
unfolding to_parser_position
to_parser_run = refl

-- The second half of a pair of units goes behind the rune.
to_parser_half :
    to_parser_position content (record { line = 1; character = 2 })
    ≡ some (record { line = 2; col = 3; offset = 9 })
unfolding to_parser_position
to_parser_half = refl

to_parser_past : to_parser_position content (record { line = 3; character = 0 }) ≡ none
unfolding to_parser_position
to_parser_past = refl

to_lsp_position-expected_position_example :
    to_lsp_position content (pos 9) ≡ expected_position content (pos 9)
to_lsp_position-expected_position_example = to_lsp_position-expected_position content (pos 9)

to_lsp_position-lsp_end_position_example :
    to_lsp_position content (pos (length content)) ≡ some (lsp_end_position content)
to_lsp_position-lsp_end_position_example = to_lsp_position-lsp_end_position content

to_parser_position-StaysOnLine_example :
    StaysOnLine content
      (record { line = 1; character = 2 })
      (to_parser_position content (record { line = 1; character = 2 }))
to_parser_position-StaysOnLine_example =
    to_parser_position-StaysOnLine content (record { line = 1; character = 2 })

abbrev ascii : Bytes
ascii = codes "ab\r\ncd"

-- The offset 3 is between the CR and the LF, and goes to the CR.
to_lsp_position-to_parser_position_example :
    (to_lsp_position ascii (pos 3) >>= to_parser_position ascii)
    ≡ some (record { line = 1; col = 3; offset = 2 })
unfolding newlines last_line non_ascii before_crlf
to_lsp_position-to_parser_position_example =
    to_lsp_position-to_parser_position ascii 3 (omega arith) refl (omega arith)

surrogates : utf16 (0xF0 ∷ 0x9F ∷ 0x98 ∷ 0x80 ∷ []) ≡ 0xD83D ∷ 0xDE00 ∷ []
unfolding utf16
surrogates = refl
