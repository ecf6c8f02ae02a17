-- ===== src/Store/View/Tests.antt =====
-- store/view.go: a view of two files that include each other.
use thrift_ls.Common.{
  ◌≡◌, refl, ◌↔◌, Bytes, [], ◌∷◌, Option, some, none, codes, true, Returns, if◌then◌else◌,
}
use thrift_ls.Store.Graph.Counts.{count}
use thrift_ls.Store.Graph.Mirrored.{Mirrored}
use thrift_ls.Store.Graph.{Uri, has, find}
use thrift_ls.Store.View.Affected.{Touched, includes_read, update-Touched}
use thrift_ls.Store.View.Steps.{created, begun, committed, updated, Reachable-Mirrored}
use thrift_ls.Store.View.{
  View, Job, evict, parse_view, ParsedFile, parse_file, parsed, commit, begin_update, update,
  new_view,
}
use thrift_ls.Syntax.Parser.{parse}
use thrift_ls.Syntax.Chars.{is_whitespace, is_ident_part}
use thrift_ls.Syntax.Cursor.{at_end, peek_byte, slice, advance_byte, advance_rune}
use thrift_ls.Syntax.Lexer.{
  lex, scan_trivia, scan_token, scan_whitespace, scan_line_comment, scan_block_comment,
  scan_identifier, scan_number, scan_string, to_line_end, to_comment_end, to_identifier_end,
  to_string_end, starts_line_comment, starts_block_comment, starts_number, symbol_token,
  identifier_kind, advance_bytes, is_escape, blank_lines_before,
}
use thrift_ls.Syntax.Number.{match_number}
use thrift_ls.Syntax.Token.{keyword_kind, symbol_kind, is_comment}

-- Paths are names of files.
abbrev resolve : Uri → Bytes → Uri
resolve file path = path

abbrev a : Uri
a = codes "a"

abbrev b : Uri
b = codes "b"

abbrev text : Bytes
text = codes "include 'b'"

abbrev read : Uri → Option Bytes
read u = some text

abbrev no_file : ParsedFile
no_file = record { content = []; document = record { tokens = []; nodes = [] }; errors = [] }

abbrev file_of : Option ParsedFile → ParsedFile
file_of (some pf) = pf
file_of none = no_file

file : ParsedFile
unfolding parse_file parse lex scan_trivia scan_token scan_whitespace scan_line_comment
    scan_block_comment scan_identifier scan_number scan_string to_line_end to_comment_end
    to_identifier_end to_string_end starts_line_comment starts_block_comment starts_number
    symbol_token identifier_kind advance_bytes is_escape blank_lines_before is_whitespace
    is_ident_part at_end peek_byte slice advance_byte advance_rune match_number keyword_kind
    symbol_kind is_comment
file = file_of (parse_file text)

file_parsed : parse_file text ≡ some file
unfolding file parse_file parse lex scan_trivia scan_token scan_whitespace scan_line_comment
    scan_block_comment scan_identifier scan_number scan_string to_line_end to_comment_end
    to_identifier_end to_string_end starts_line_comment starts_block_comment starts_number
    symbol_token identifier_kind advance_bytes is_escape blank_lines_before is_whitespace
    is_ident_part at_end peek_byte slice advance_byte advance_rune match_number keyword_kind
    symbol_kind is_comment
file_parsed = refl

changed : View
changed = begin_update (a ∷ []) new_view

job : Job
unfolding changed begin_update
job = record { file = a; result = file; generation = changed.gen; guarded = none }

-- `b` has one includer, `a`.
b_includers : find b (commit resolve job changed).graph.includers ≡ a ∷ []
unfolding commit job file changed begin_update find
b_includers = refl

evicted : View
evicted = evict (b ∷ []) (commit resolve job changed)

-- `b` loses its includer when it is evicted, and a parse of `a`, which is still there, does not bring it back.
b_evicted : find b evicted.graph.includers ≡ []
unfolding evicted evict commit job file changed begin_update find
b_evicted = refl

a_kept : parse_view resolve read none a evicted ≡ some (some file, evicted)
unfolding parse_view evicted evict commit job file changed begin_update
a_kept = refl

Reachable-Mirrored_example :
    count b (find a (commit resolve job changed).graph.includes)
    ≡ count a (find b (commit resolve job changed).graph.includers)
unfolding job changed begin_update parsed
Reachable-Mirrored_example =
    Reachable-Mirrored (commit resolve job changed) []
      (committed resolve [] [] job
        (begun a text file none (updated (a ∷ []) created) refl file_parsed))
      a b

update-Touched_example :
    Returns
      (λ ((files, gen), w).
        Mirrored w.graph
        × ((u x : Uri)
            → has (find u w.graph.includes) x ≡ (
                if has (a ∷ b ∷ []) u
                then has (includes_read resolve read none gen u) x
                else has (find u new_view.graph.includes) x))
        × ((x : Uri) → (has files x ≡ true) ↔ Touched w.graph (a ∷ b ∷ []) (a ∷ b ∷ []) x))
      (update resolve read none (a ∷ b ∷ []) new_view)
unfolding find count
update-Touched_example = update-Touched resolve read none (a ∷ b ∷ []) new_view (λ u i. refl)
