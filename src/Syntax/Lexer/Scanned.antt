-- ===== src/Syntax/Lexer/Scanned.antt =====
-- What every scanning method promises of the token that it returns.
use thrift_ls.Common.{ℕ, ◌-◌, ◌<◌, ◌≡◌, refl, ap, arith, length, length-drop}
use thrift_ls.Syntax.Cursor.{Cursor, slice}
use thrift_ls.Syntax.Cursor.Reads.{Reads, AnyByte, Reads-Moved}
use thrift_ls.Syntax.Lexer.{token_at, with_blanks}
use thrift_ls.Syntax.Token.{TokenKind, Token}

-- The token's text is what was read from `c` to `d`, and it records where it starts.
pub record Spelled (c : Cursor) (t : Token) (d : Cursor) : Type 0 where
  pub reads : Reads AnyByte d c
  pub text_eq : t.text ≡ slice c d
  pub offset_eq : t.offset ≡ c.offset
  pub line_eq : t.line ≡ c.line
  pub col_eq : t.col ≡ c.col

pub Spelled-token_at :
    {c d : Cursor} (kind : TokenKind) → Reads AnyByte d c → Spelled c (token_at kind c d) d
Spelled-token_at kind r = record {
  reads = r;
  text_eq = refl;
  offset_eq = refl;
  line_eq = refl;
  col_eq = refl;
}

pub Spelled-with_blanks :
    {c d : Cursor} {t : Token} (n : ℕ) → Spelled c t d → Spelled c (with_blanks n t) d
Spelled-with_blanks n s = record {
  reads = s.reads;
  text_eq = s.text_eq;
  offset_eq = s.offset_eq;
  line_eq = s.line_eq;
  col_eq = s.col_eq;
}

-- A token that is not the end of the text has a text, so fewer bytes are left behind it.
pub record Scanned (c : Cursor) (t : Token) (d : Cursor) : Type 0 where
  pub spelled : Spelled c t d
  pub advances : c.offset < d.offset

pub Scanned-token_at :
    {c d : Cursor} (kind : TokenKind)
    → Reads AnyByte d c
    → c.offset < d.offset
    → Scanned c (token_at kind c d) d
Scanned-token_at kind r lt = record { spelled = Spelled-token_at kind r; advances = lt }

pub Scanned-shrinks : {c d : Cursor} {t : Token} → Scanned c t d → length d.rest < length c.rest
Scanned-shrinks {c} {d} s =
    let m = Reads-Moved s.spelled.reads in
    omega (arith, ap length m.rest, length-drop (d.offset - c.offset) c.rest, m.fits, s.advances)
