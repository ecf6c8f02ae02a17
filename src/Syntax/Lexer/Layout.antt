-- ===== src/Syntax/Lexer/Layout.antt =====
-- Token lists laid out over the source: each entry stands behind a gap, and starts where the gap ends.
use thrift_ls.Common.{ℕ, ◌-◌, ◌≡◌, ◌⊎◌, true, false, List, [], ◌∷◌, ◌++◌, arith, All}
use thrift_ls.Syntax.Cursor.{Cursor, at_end, here}
use thrift_ls.Syntax.Cursor.Reads.{Reads, AnyByte, stop, Reads-mono, Reads-trans}
use thrift_ls.Syntax.Lexer.Scanned.{Spelled}
use thrift_ls.Syntax.Lexer.Spaces.{IsSpace}
use thrift_ls.Syntax.Lexer.{blank_lines_before, starts_line_comment, starts_block_comment, is_eof}
use thrift_ls.Syntax.Chars.{is_whitespace}
use thrift_ls.Syntax.Token.{TokenKind, Token, is_comment}

-- Whitespace from `c` to `s`, with the blank lines in it counted.
pub record Gap (c s : Cursor) (blanks : ℕ) : Type 0 where
  pub reads : Reads IsSpace s c
  pub blanks_eq : blanks ≡ blank_lines_before (s.line - c.line)

pub Gap-none : (c : Cursor) → Gap c c 0
unfolding blank_lines_before
Gap-none c = record { reads = stop; blanks_eq = let e : c.line - c.line ≡ 0 = omega arith in rw e }

-- What is skipped from `c` to `s` is whitespace alone where `quiet` holds.
pub record Skip (quiet : Type 0) (c s : Cursor) (blanks : ℕ) : Type 0 where
  pub reads : Reads AnyByte s c
  pub gap : quiet → Gap c s blanks

pub Gap-Skip : {quiet : Type 0} {c s : Cursor} {blanks : ℕ} → Gap c s blanks → Skip quiet c s blanks
Gap-Skip g = record { reads = Reads-mono (λ b h. tt) g.reads; gap = λ q. g }

-- The tokens of a list are read one behind the other, from the cursor of the index up to `e`.
pub data Entries (G : Cursor → Cursor → ℕ → Type 0) (e : Cursor)
    : Cursor → List Token → Type 0 where
  nil : Entries G e e []
  entry :
      {c : Cursor} {t : Token} {ts : List Token} (s d : Cursor)
      → G c s t.blank_lines_before
      → Spelled s t d
      → Entries G e d ts
      → Entries G e c (t ∷ ts)

module _ {G : Cursor → Cursor → ℕ → Type 0} where
  pub Entries-append :
      {e m c : Cursor} {xs ys : List Token}
      → Entries G e m ys
      → Entries G m c xs
      → Entries G e c (xs ++ ys)
  Entries-append later nil = later
  Entries-append later (entry s d g t es) = entry s d g t (Entries-append later es)

  pub Entries-mono :
      {H : Cursor → Cursor → ℕ → Type 0} {e c : Cursor} {xs : List Token}
      → ((c s : Cursor) (n : ℕ) → G c s n → H c s n)
      → Entries G e c xs
      → Entries H e c xs
  Entries-mono k nil = nil
  Entries-mono k (entry s d g t es) = entry s d (k _ s _ g) t (Entries-mono k es)

  pub Entries-Reads :
      {e c : Cursor} {xs : List Token}
      → ((c s : Cursor) (n : ℕ) → G c s n → Reads AnyByte s c)
      → Entries G e c xs
      → Reads AnyByte e c
  Entries-Reads k nil = stop
  Entries-Reads k (entry s d g t es) =
      Reads-trans (Entries-Reads k es) (Reads-trans t.reads (k _ s _ g))

-- No whitespace and no comment starts here.
pub record TriviaFree (c : Cursor) : Type 0 where
  pub no_space : is_whitespace (here c) ≡ false
  pub no_line_comment : starts_line_comment c ≡ false
  pub no_block_comment : starts_block_comment c ≡ false

abbrev pub NoTrivia : Cursor → Type 0
NoTrivia c = (at_end c ≡ true) ⊎ TriviaFree c

abbrev pub IsComment : Token → Type 0
IsComment t = is_comment t.kind ≡ true

abbrev pub NotEof : Token → Type 0
NotEof t = is_eof t.kind ≡ false

comment_kind : (k : TokenKind) → is_comment k ≡ true → is_eof k ≡ false
unfolding is_comment is_eof
comment_kind k h = ground arith

pub IsComment-NotEof : (ts : List Token) → All IsComment ts → All NotEof ts
IsComment-NotEof [] h = tt
IsComment-NotEof (t ∷ ts) (p, h) = (comment_kind t.kind p, IsComment-NotEof ts h)
