-- ===== src/Syntax/Lexer.antt =====
-- syntax/lexer.go: `Lex` and the lexer's methods. A loop takes fuel and returns `none` where it runs
-- out; every call hands out one unit more than the bytes left, and each round reads a byte.
-- A method returns the cursor (or, where it can report an error, the whole lexer) with its result.
pub mod Scanned
pub mod Spaces
pub mod Comments
pub mod Words
pub mod Strings
pub mod Layout
pub mod Trivia
pub mod Tokens
pub mod Run
pub mod Lossless
mod Tests
use thrift_ls.Common.{
  ℕ, zero, suc, ◌+◌, ◌-◌, Bool, true, false, not, ◌&&◌, ◌||◌, List, [], ◌∷◌, ◌++◌, Option, none,
  some, Bytes, ltb, ◌==◌, if◌then◌else◌, length, take, ◌>>=◌,
}
use thrift_ls.Syntax.Chars.{is_whitespace, is_digit, is_ident_start, is_ident_part}
use thrift_ls.Syntax.Cursor.{Cursor, at_end, peek_byte, here, slice, advance_byte, advance_rune}
use thrift_ls.Syntax.Number.{match_number}
use thrift_ls.Syntax.Token.{TokenKind, Token, Severity, Message, Error, keyword_kind, symbol_kind}

-- `lexer`: the source and the place in it are the cursor.
pub record Lexer : Type 0 where
  pub cur : Cursor
  pub errs : List Error

-- Enough rounds for any loop that starts here.
abbrev pub fuel : Cursor → ℕ
fuel c = suc (length c.rest)

abbrev pub at : Lexer → Cursor → Lexer
at l c = record l { cur = c }

-- A token whose text runs from `start` to `c`, as each scanning method returns it.
abbrev pub token_at : TokenKind → Cursor → Cursor → Token
token_at kind start c = record {
  kind = kind;
  text = slice start c;
  offset = start.offset;
  line = start.line;
  col = start.col;
  blank_lines_before = 0;
}

-- `errorfAt`, and `errorf` at the lexer's own place
abbrev pub error_at : Lexer → Cursor → Message → Lexer
error_at l p m =
    let e : Error = record {
      message = m;
      offset = p.offset;
      line = p.line;
      col = p.col;
      severity = Severity.error;
    } in
    record l { errs = l.errs ++ e ∷ [] }

-- `blankLinesBefore`
unfoldable pub blank_lines_before : ℕ → ℕ
blank_lines_before newlines = if ltb 0 newlines then newlines - 1 else 0

-- `case '\r'` of `scanWhitespace`: a newline behind the carriage return belongs to it.
after_cr : Cursor → Cursor
after_cr c = if not (at_end c) && here c == b'\n' then advance_byte c else c

-- `scanWhitespace`
unfoldable pub scan_whitespace : ℕ → Cursor → ℕ → Option (ℕ × Cursor)
unfolding after_cr
scan_whitespace zero c newlines = none
scan_whitespace (suc f) c newlines =
    let lf = scan_whitespace f (advance_byte c) (newlines + 1) in
    let cr = scan_whitespace f (after_cr (advance_byte c)) (newlines + 1) in
    let blank = scan_whitespace f (advance_byte c) newlines in
    if at_end c
    then some (blank_lines_before newlines, c)
    else if here c == b'\n'
    then lf
    else if here c == b'\r'
    then cr
    else if here c == b' ' || here c == b'\t'
    then blank
    else some (blank_lines_before newlines, c)

-- The loop of `scanLineComment`.
unfoldable pub to_line_end : ℕ → Cursor → Option Cursor
to_line_end zero c = none
to_line_end (suc f) c =
    let next = to_line_end f (advance_rune c) in
    if not (at_end c) && (not (here c == b'\n') && not (here c == b'\r')) then next else some c

-- `scanLineComment`
unfoldable pub scan_line_comment : Cursor → Option (Token × Cursor)
scan_line_comment start = do
  c ← to_line_end (fuel start) start
  some (token_at TokenKind.line_comment start c, c)

-- The loop of `scanBlockComment`: `true` for a comment that ends, with the cursor behind it.
unfoldable pub to_comment_end : ℕ → Bool → Cursor → Cursor → Option (Bool × Cursor)
to_comment_end zero doc start c = none
to_comment_end (suc f) doc start c =
    let next = to_comment_end f doc start (advance_rune c) in
    if at_end c
    then some (false, c)
    else if here c == b'*' && peek_byte c 1 == b'/'
    then some (true, advance_byte (advance_byte c))
    else if doc && (c.offset == start.offset + 3 && here c == b'/')
    then some (true, advance_byte c)
    else next

-- What `scanBlockComment` returns behind its loop; the flag is `doc`.
unfoldable pub close_comment : Bool → Lexer → Bool × Cursor → Token × Lexer
close_comment true l (true, c) = (token_at TokenKind.doc_comment l.cur c, at l c)
close_comment false l (true, c) = (token_at TokenKind.block_comment l.cur c, at l c)
close_comment doc l (false, c) =
    (token_at TokenKind.block_comment l.cur c, error_at (at l c) l.cur Message.unterminated_comment)

-- `scanBlockComment`
unfoldable pub scan_block_comment : Lexer → Option (Token × Lexer)
unfolding close_comment
scan_block_comment l = do
  let start = l.cur
  let doc = peek_byte start 2 == b'*'
  r ← to_comment_end (fuel start) doc start (advance_byte (advance_byte start))
  some (close_comment doc l r)

-- `case c == '/' && l.peekByte(1) == '/', c == '#'`
unfoldable pub starts_line_comment : Cursor → Bool
starts_line_comment c = here c == b'/' && peek_byte c 1 == b'/' || here c == b'#'

unfoldable pub starts_block_comment : Cursor → Bool
starts_block_comment c = here c == b'/' && peek_byte c 1 == b'*'

-- `t.BlankLinesBefore = blankLines`, before the comment joins the others
abbrev pub with_blanks : ℕ → Token → Token
with_blanks n t = record t { blank_lines_before = n }

-- `scanTrivia`: the blank lines before the next token, and the comments before it.
unfoldable pub scan_trivia : ℕ → Lexer → ℕ → List Token → Option ((ℕ × List Token) × Lexer)
scan_trivia zero l blanks comments = none
scan_trivia (suc f) l blanks comments =
    let spaces = do
      (n, c) ← scan_whitespace (fuel l.cur) l.cur 0
      scan_trivia f (at l c) (blanks + n) comments
    in let line = do
      (t, c) ← scan_line_comment l.cur
      scan_trivia f (at l c) 0 (comments ++ with_blanks blanks t ∷ [])
      in let block = do
        (t, l') ← scan_block_comment l
        scan_trivia f l' 0 (comments ++ with_blanks blanks t ∷ [])
        in if at_end l.cur
          then some ((blanks, comments), l)
          else if is_whitespace (here l.cur)
          then spaces
          else if starts_line_comment l.cur
          then line
          else if starts_block_comment l.cur
          then block
          else some ((blanks, comments), l)

-- `symbolToken`
unfoldable pub symbol_token : TokenKind → Cursor → Token × Cursor
symbol_token kind start = let c = advance_byte start in (token_at kind start c, c)

-- The loop of `scanIdentifier`; the flag is `dotted`.
unfoldable pub to_identifier_end : ℕ → Bool → Cursor → Option (Bool × Cursor)
to_identifier_end zero dotted c = none
to_identifier_end (suc f) dotted c =
    let part = to_identifier_end f dotted (advance_byte c) in
    let dot = to_identifier_end f true (advance_byte (advance_byte c)) in
    if at_end c
    then some (dotted, c)
    else if is_ident_part (here c)
    then part
    else if here c == b'.' && is_ident_start (peek_byte c 1)
    then dot
    else some (dotted, c)

-- `if k, ok := keywordKinds[text]; ok { kind = k }`, unless there was a dot
unfoldable pub identifier_kind : Bool → Option TokenKind → TokenKind
identifier_kind false (some k) = k
identifier_kind _ _ = TokenKind.identifier

-- `scanIdentifier`
unfoldable pub scan_identifier : Cursor → Option (Token × Cursor)
scan_identifier start = do
  (dotted, c) ← to_identifier_end (fuel start) false (advance_byte start)
  some (token_at (identifier_kind dotted (keyword_kind (slice start c))) start c, c)

-- `for i := 0; i < length; i++ { l.advanceByte() }`
unfoldable pub advance_bytes : ℕ → Cursor → Cursor
advance_bytes zero c = c
advance_bytes (suc n) c = advance_bytes n (advance_byte c)

-- The token of a constant of `n` bytes, and the place behind it.
abbrev pub number_at : Cursor → ℕ × TokenKind → Token × Cursor
number_at start (n, kind) = (
  record {
    kind = kind;
    text = take n start.rest;
    offset = start.offset;
    line = start.line;
    col = start.col;
    blank_lines_before = 0;
  },
  advance_bytes n start,
)

-- `scanNumber`; `none` is its result `false`
unfoldable pub scan_number : Cursor → Option (Token × Cursor)
scan_number start = do m ← match_number start.rest; some (number_at start m)

-- The escapes that a string may hold.
unfoldable pub is_escape : ℕ → Bool
is_escape c = c == b'r' || c == b'n' || c == b't' || c == b'"' || c == b'\'' || c == b'\\'

-- The loop of `scanString`.
unfoldable pub to_string_end : ℕ → ℕ → Cursor → Lexer → Option Lexer
to_string_end zero quote start l = none
to_string_end (suc f) quote start l =
    let c = l.cur in
    let escaped = to_string_end f quote start (at l (advance_byte (advance_byte c))) in
    let invalid = to_string_end f quote start (
      at (error_at l c (Message.invalid_escape (peek_byte c 1))) (advance_rune (advance_byte c))) in
    let next = to_string_end f quote start (at l (advance_rune c)) in
    if at_end c
    then some (error_at l start Message.unterminated_string)
    else if here c == quote
    then some (at l (advance_byte c))
    else if here c == b'\n' || here c == b'\r'
    then some (error_at l start Message.newline_in_string)
    else if here c == b'\\'
    then (if at_end (advance_byte c)
        then some (error_at (at l (advance_byte c)) start Message.unterminated_string)
        else if is_escape (peek_byte c 1)
        then escaped
        else invalid)
    else next

-- `scanString`
unfoldable pub scan_string : Lexer → Option (Token × Lexer)
scan_string l = do
  l' ← to_string_end (fuel l.cur) (here l.cur) l.cur (at l (advance_byte l.cur))
  some (token_at TokenKind.string_literal l.cur l'.cur, l')

-- `l.errorf("unexpected character %q", c)` and `l.advanceRune()`
abbrev pub reject : Lexer → Lexer
reject l = at (error_at l l.cur (Message.unexpected_character (here l.cur))) (advance_rune l.cur)

-- `isDigit(c) || c == '+' || c == '-' || (c == '.' && isDigit(l.peekByte(1)))`
unfoldable pub starts_number : Cursor → Bool
starts_number c =
    is_digit (here c)
    || here c == b'+'
    || here c == b'-'
    || here c == b'.' && is_digit (peek_byte c 1)

-- A token scanned from the cursor alone.
abbrev pub lift : Lexer → Token × Cursor → Token × Lexer
lift l (t, c) = (t, at l c)

-- `scanToken`
unfoldable pub scan_token : ℕ → Lexer → Option (Token × Lexer)
scan_token zero l = none
scan_token (suc f) l =
    let c = l.cur in
    let rejected = scan_token f (reject l) in
    let space = scan_token f (at l (advance_byte c)) in
    let line = do (t, c') ← scan_line_comment c; scan_token f (at l c')
    in let block = do (t, l') ← scan_block_comment l; scan_token f l'
      in if at_end c
        then some (token_at TokenKind.eof c c, l)
        else if is_ident_start (here c)
        then (do r ← scan_identifier c; some (lift l r))
        else if starts_number c
        then elim (scan_number c) [ some r ↦ some (lift l r) | none ↦ rejected ]
        else if here c == b'\'' || here c == b'"'
        then scan_string l
        else if here c == b'&'
        then some (lift l (symbol_token TokenKind.amp c))
        else if here c == b'*'
        then some (lift l (symbol_token TokenKind.star c))
        else if is_whitespace (here c)
        then space
        else if starts_line_comment c
        then line
        else if starts_block_comment c
        then block
        else elim (symbol_kind (here c)) [
          | some kind ↦ some (lift l (symbol_token kind c))
          | none ↦ rejected
        ]

-- `tok.Kind == TokenEOF`
unfoldable pub is_eof : TokenKind → Bool
is_eof TokenKind.eof = true
is_eof _ = false

-- The loop of `run`.
unfoldable pub run : ℕ → Lexer → List Token → Option (List Token × List Error)
unfolding is_eof
run zero l tokens = none
run (suc f) l tokens = do
  ((blanks, comments), l₁) ← scan_trivia (fuel l.cur) l 0 []
  (tok, l₂) ← scan_token (fuel l₁.cur) l₁
  let all = tokens ++ (comments ++ with_blanks blanks tok ∷ [])
  let more = run f l₂ all
  if is_eof tok.kind then some (all, l₂.errs) else more

abbrev pub start_of : Bytes → Cursor
start_of src = record { rest = src; offset = 0; line = 1; col = 1 }

-- `Lex`
unfoldable pub lex : Bytes → Option (List Token × List Error)
unfolding run
lex src = run (suc (length src)) (record { cur = start_of src; errs = [] }) []
