-- ===== src/Syntax/Lexer/Words.antt =====
-- The scanning methods for a token of one kind: `scanIdentifier`, `symbolToken` and
-- `scanNumber`. None returns the end of the text.
use Prim.Native.String.{String}
use thrift_ls.Common.{
  bytes_eq, subst, ◌>>=◌, ℕ, zero, suc, ◌+◌, ◌-◌, ◌<◌, ◌≡◌, refl, ap, Bool, true, false, not, ◌&&◌,
  Option, some, none, List, [], ◌∷◌, Bytes, codes, arith, ◌==◌, if_elim, length, take, Returns,
  returns, Returns-if, Returns-mono, Returns-bind,
}
use thrift_ls.Utf8.{rune_self}
use thrift_ls.Syntax.Chars.{is_ident_start, is_ident_part}
use thrift_ls.Syntax.Cursor.{Cursor, at_end, peek_byte, here, slice, advance_byte}
use thrift_ls.Syntax.Cursor.Peek.{
  not_end_of_here, Reads_two, two_shrinks, byte_advances, advance_byte_rest, advance_byte_offset,
}
use thrift_ls.Syntax.Cursor.Reads.{
  Reads, AnyByte, stop, Reads-byte, Reads-trans, Reads-Moved, byte_shrinks, cursor,
}
use thrift_ls.Syntax.Lexer.Scanned.{Scanned, Scanned-token_at}
use thrift_ls.Syntax.Lexer.{
  fuel, is_eof, to_identifier_end, identifier_kind, scan_identifier, symbol_token, advance_bytes,
  number_at, scan_number,
}
use thrift_ls.Syntax.Number.Ascii.{AsciiTo, match_number-AsciiTo}
use thrift_ls.Syntax.Number.{match_number}
use thrift_ls.Syntax.Token.{
  TokenKind, Token, keyword_kinds, lookup_keyword, keyword_kind, symbol_kind,
}

-- A token was read from `c`, and it is not the end of the text.
abbrev pub Word : Cursor → Token × Cursor → Type 0
Word c r = Scanned c r.0 r.1 × (is_eof r.0.kind ≡ false)

ident_part_ascii : (b : ℕ) → is_ident_part b ≡ true → (0 < b) × (b < rune_self)
unfolding is_ident_part
ident_part_ascii b h = ground arith

ident_start_ascii : (b : ℕ) → is_ident_start b ≡ true → (0 < b) × (b < rune_self)
unfolding is_ident_start
ident_start_ascii b h = ground arith

to_identifier_end-Returns :
    (f : ℕ) (dotted : Bool) (c : Cursor)
    → length c.rest < f
    → Returns (λ r. Reads AnyByte r.1 c) (to_identifier_end f dotted c)
unfolding to_identifier_end
to_identifier_end-Returns zero dotted c lt = absurd (omega arith)
to_identifier_end-Returns (suc f) dotted c lt =
    Returns-if (at_end c) (λ e. returns stop)
      λ e.
        Returns-if (is_ident_part (here c))
          (λ t.
            let a = (ident_part_ascii _ t).1 in
            Returns-mono
              (to_identifier_end-Returns f dotted (advance_byte c)
                (omega (arith, byte_shrinks c e a)))
              (λ r p. Reads-byte c e a tt p))
          λ t.
            Returns-if (here c == b'.' && is_ident_start (peek_byte c 1))
              (λ u.
                let (pos, a) = ident_start_ascii (peek_byte c 1) (ground arith) in
                let p : 0 < here c = ground arith in
                let n : here c < rune_self = ground arith in
                let two = Reads_two c p n pos a in
                Returns-mono
                  (to_identifier_end-Returns f true (advance_byte (advance_byte c))
                    (omega (arith, two_shrinks c p n pos a)))
                  (λ r p. Reads-trans p two))
              λ u. returns stop

-- No kind of the table is the end of the text.
no_eof : List (String × TokenKind) → Bool
no_eof [] = true
no_eof ((name, kind) ∷ table) = not (is_eof kind) && no_eof table

both_true : (a b : Bool) → (not a && b) ≡ true → (a ≡ false) × (b ≡ true)
both_true a b h = ground arith

lookup_keyword-is_eof :
    (text : Bytes) (table : List (String × TokenKind)) (k : TokenKind)
    → no_eof table ≡ true
    → lookup_keyword text table ≡ some k
    → is_eof k ≡ false
unfolding lookup_keyword no_eof
lookup_keyword-is_eof text [] k h = λ e. cc
lookup_keyword-is_eof text ((name, kind) ∷ table) k h =
    let (first, others) = both_true (is_eof kind) (no_eof table) h in
    if_elim (λ r. r ≡ some k → is_eof k ≡ false) (bytes_eq text (codes name))
      (λ t e. let p : kind ≡ k = cc in rw (← p) first)
      (λ t. lookup_keyword-is_eof text table k others)

keyword_kind-is_eof : (text : Bytes) (k : TokenKind) → keyword_kind text ≡ some k → is_eof k ≡ false
unfolding keyword_kind no_eof is_eof
keyword_kind-is_eof text k = lookup_keyword-is_eof text keyword_kinds k refl

identifier_kind-is_eof :
    (dotted : Bool) (text : Bytes) → is_eof (identifier_kind dotted (keyword_kind text)) ≡ false
unfolding identifier_kind is_eof
identifier_kind-is_eof dotted text = split dotted (keyword_kind text) (keyword_kind-is_eof text)
  where
    split :
        (dotted : Bool) (o : Option TokenKind)
        → ((k : TokenKind) → o ≡ some k → is_eof k ≡ false)
        → is_eof (identifier_kind dotted o) ≡ false
    split false (some k) h = h k refl
    split false none h = refl
    split true (some k) h = refl
    split true none h = refl

pub scan_identifier-Returns :
    (c : Cursor) → is_ident_start (here c) ≡ true → Returns (Word c) (scan_identifier c)
unfolding scan_identifier
scan_identifier-Returns c h =
    let (pos, a) = ident_start_ascii (here c) h in
    let n = not_end_of_here c pos in
    Returns-bind
      (to_identifier_end-Returns (fuel c) false (advance_byte c)
        (omega (arith, byte_shrinks c n a)))
      (λ r p. returns (
        Scanned-token_at _ (Reads-byte c n a tt p)
            (omega (arith, byte_advances c n a, (Reads-Moved p).le)),
        identifier_kind-is_eof r.0 (slice c r.1),
      ))

pub symbol_token-Word :
    (kind : TokenKind) (c : Cursor)
    → 0 < here c
    → here c < rune_self
    → is_eof kind ≡ false
    → Word c (symbol_token kind c)
unfolding symbol_token
symbol_token-Word kind c p a e =
    let n = not_end_of_here c p in
    (Scanned-token_at kind (Reads-byte c n a tt stop) (byte_advances c n a), e)

pub symbol_kind_facts :
    (c : ℕ) {kind : TokenKind}
    → symbol_kind c ≡ some kind
    → (0 < c) × (c < rune_self) × (is_eof kind ≡ false)
unfolding symbol_kind is_eof
symbol_kind_facts c h = ground arith

-- A numeric constant is read byte by byte.
AsciiTo-step :
    (n : ℕ) (c : Cursor)
    → AsciiTo (suc n) c.rest
    → (at_end c ≡ false) × (here c < rune_self) × AsciiTo n (advance_byte c).rest
unfolding at_end peek_byte
AsciiTo-step n c = split c.rest
  where
    split :
        (s : Bytes)
        → AsciiTo (suc n) s
        → let d = cursor s c.offset c.line c.col in
          (at_end d ≡ false) × (here d < rune_self) × AsciiTo n (advance_byte d).rest
    split [] h = absurd h
    split (b ∷ bs) (p, h) =
        let d = cursor (b ∷ bs) c.offset c.line c.col in
        let e : (advance_byte d).rest ≡ bs = advance_byte_rest d refl in (refl, p, rw e h)

advance_bytes-Reads : (n : ℕ) (c : Cursor) → AsciiTo n c.rest → Reads AnyByte (advance_bytes n c) c
unfolding advance_bytes
advance_bytes-Reads zero c h = stop
advance_bytes-Reads (suc n) c h =
    let (e, a, later) = AsciiTo-step n c h in
    Reads-byte c e a tt (advance_bytes-Reads n (advance_byte c) later)

-- It goes on by as many bytes as the constant has.
advance_bytes-offset :
    (n : ℕ) (c : Cursor) → AsciiTo n c.rest → (advance_bytes n c).offset ≡ c.offset + n
unfolding advance_bytes
advance_bytes-offset zero c h = omega arith
advance_bytes-offset (suc n) c h =
    let (e, a, later) = AsciiTo-step n c h in
    omega (arith, advance_bytes-offset n (advance_byte c) later, advance_byte_offset c e)

number_at-Word :
    (c : Cursor) (n : ℕ) (kind : TokenKind)
    → match_number c.rest ≡ some (n, kind)
    → Word c (number_at c (n, kind))
unfolding slice
number_at-Word c n kind h =
    let (pos, ascii, is_kind) = match_number-AsciiTo c.rest h in
    let o = advance_bytes-offset n c ascii in
    let e : n ≡ (advance_bytes n c).offset - c.offset = omega arith in
    (
      record {
        spelled = record {
          reads = advance_bytes-Reads n c ascii;
          text_eq = ap (λ m. take m c.rest) e;
          offset_eq = refl;
          line_eq = refl;
          col_eq = refl;
        };
        advances = omega arith;
      },
      unfold is_eof in ground arith,
    )

pub scan_number-Word : (c : Cursor) (r : Token × Cursor) → scan_number c ≡ some r → Word c r
unfolding scan_number
scan_number-Word c r = split (match_number c.rest) refl
  where
    split :
        (o : Option (ℕ × TokenKind))
        → match_number c.rest ≡ o
        → (o >>= λ m. some (number_at c m)) ≡ some r
        → Word c r
    split none h e = cc
    split (some (n, kind)) h e =
        let p : number_at c (n, kind) ≡ r = cc in subst (Word c) p (number_at-Word c n kind h)
