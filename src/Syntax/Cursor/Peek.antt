-- ===== src/Syntax/Cursor/Peek.antt =====
-- `peekByte`, ahead of and behind a step.
use thrift_ls.Common.{
  ℕ, suc, ◌<◌, ◌≡◌, refl, false, [], ◌∷◌, Bytes, arith, get_or, length, drop, ◌+◌,
}
use thrift_ls.Utf8.{rune_self}
use thrift_ls.Syntax.Cursor.{Cursor, is_nil, at_end, here, peek_byte, advance_byte, advance_rune}
use thrift_ls.Syntax.Cursor.Reads.{
  Reads, AnyByte, stop, Reads-byte, not_at_end, rune_width, advance_rune_place,
  advance_byte-advance_rune, byte_shrinks,
}

-- Past the end there is only the byte 0.
pub not_end_of_here : (c : Cursor) → 0 < here c → at_end c ≡ false
unfolding at_end peek_byte
not_end_of_here c = split c.rest
  where
    split : (s : Bytes) → 0 < get_or s 0 0 → is_nil s ≡ false
    split [] h = absurd (omega arith)
    split (b ∷ bs) h = refl

pub peek_byte-advance_byte :
    (c : Cursor) (n : ℕ) → at_end c ≡ false → peek_byte (advance_byte c) n ≡ peek_byte c (suc n)
unfolding peek_byte advance_byte
peek_byte-advance_byte c n e =
    not_at_end (λ c. peek_byte (advance_byte c) n ≡ peek_byte c (suc n))
      (λ b bs o l k. ground arith) c e

pub rune_advances : (c : Cursor) → at_end c ≡ false → c.offset < (advance_rune c).offset
rune_advances c n = omega (arith, rune_width c n, (advance_rune_place c).1)

pub byte_advances :
    (c : Cursor) → at_end c ≡ false → here c < rune_self → c.offset < (advance_byte c).offset
byte_advances c n a = rw (advance_byte-advance_rune c n a) (rune_advances c n)

pub advance_byte_rest : (c : Cursor) → at_end c ≡ false → (advance_byte c).rest ≡ drop 1 c.rest
unfolding advance_byte
advance_byte_rest =
    not_at_end (λ c. (advance_byte c).rest ≡ drop 1 c.rest) (λ b bs o l k. ground arith)

pub advance_byte_offset : (c : Cursor) → at_end c ≡ false → (advance_byte c).offset ≡ c.offset + 1
unfolding advance_byte
advance_byte_offset =
    not_at_end (λ c. (advance_byte c).offset ≡ c.offset + 1) (λ b bs o l k. ground arith)

-- Two ASCII bytes are read by two calls of `advanceByte`.
module _ (c : Cursor) (p : 0 < here c) (h : here c < rune_self) (q : 0 < peek_byte c 1)
    (k : peek_byte c 1 < rune_self) where
  second : (at_end (advance_byte c) ≡ false) × (here (advance_byte c) < rune_self)
  second =
      let e = peek_byte-advance_byte c 0 (not_end_of_here c p) in
      (not_end_of_here (advance_byte c) (omega arith), omega arith)

  pub Reads_two : Reads AnyByte (advance_byte (advance_byte c)) c
  Reads_two =
      Reads-byte c (not_end_of_here c p) h tt
        (Reads-byte (advance_byte c) second.0 second.1 tt stop)

  pub two_shrinks : length (advance_byte (advance_byte c)).rest < length c.rest
  two_shrinks = omega (
    arith,
    byte_shrinks c (not_end_of_here c p) h,
    byte_shrinks (advance_byte c) second.0 second.1,
  )

  pub two_advances : c.offset < (advance_byte (advance_byte c)).offset
  two_advances = omega (
    arith,
    byte_advances c (not_end_of_here c p) h,
    byte_advances (advance_byte c) second.0 second.1,
  )
