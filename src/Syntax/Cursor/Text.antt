-- ===== src/Syntax/Cursor/Text.antt =====
-- The text between two cursors.
use thrift_ls.Common.{
  ℕ, false, ◌+◌, ◌-◌, ◌≤◌, ◌≡◌, sym, ◌∙◌, subst, [], ◌∷◌, ◌++◌, arith, Bytes, length, take, drop,
  take-append-drop, take-add, length-take, All, All-append, dec_lt,
}
use thrift_ls.Utf8.Facts.{IsHigh, decode_ascii, decode_rune-IsHigh}
use thrift_ls.Utf8.{rune_self, decode_rune}
use thrift_ls.Syntax.Cursor.{Cursor, at_end, here, slice, advance_rune}
use thrift_ls.Syntax.Cursor.Reads.{
  Reads, AnyByte, stop, more, Moved, Reads-Moved, advance_rune_place, rest_split,
}

pub slice-append : {c d : Cursor} → Moved c d → slice c d ++ d.rest ≡ c.rest
unfolding slice
slice-append {c} {d} m = rw m.rest (take-append-drop (d.offset - c.offset) c.rest)

pub length-slice : {c d : Cursor} → Moved c d → length (slice c d) ≡ d.offset - c.offset
unfolding slice
length-slice {c} {d} m = omega (arith, length-take (d.offset - c.offset) c.rest, m.fits)

pub slice_self : (c : Cursor) → slice c c ≡ []
unfolding slice
slice_self c = let e : c.offset - c.offset ≡ 0 = omega arith in rw e

pub slice_split : {c d e : Cursor} → Moved c d → Moved d e → slice c e ≡ slice c d ++ slice d e
unfolding slice
slice_split {c} {d} {e} m m' =
    let n = d.offset - c.offset in
    let sum : e.offset - c.offset ≡ n + (e.offset - d.offset) = omega (arith, m.le, m'.le) in
    rw sum (take-add n (e.offset - d.offset) c.rest ∙ rw m.rest)

-- A property of bytes that holds of all bytes of a rune where it holds of the first.
abbrev pub RuneClosed {κ} : (ℕ → Type κ) → Type κ
RuneClosed P = (b : ℕ) → P b → rune_self ≤ b → (b' : ℕ) → IsHigh b' → P b'

All-of_high {κ} :
    (P : ℕ → Type κ) → ((b : ℕ) → IsHigh b → P b) → (s : Bytes) → All IsHigh s → All P s
All-of_high P k [] h = tt
All-of_high P k (b ∷ s) (p, h) = (k b p, All-of_high P k s h)

rune_All {κ} :
    (P : ℕ → Type κ) (b : ℕ) (bs : Bytes)
    → RuneClosed P
    → P b
    → All P (take (decode_rune (b ∷ bs)).1 (b ∷ bs))
rune_All P b bs k p = elim (dec_lt b rune_self) [
  | yes a ↦ rw (decode_ascii b bs a) (p, tt)
  | no a ↦
      let h : rune_self ≤ b = omega arith in All-of_high P (k b p h) _ (decode_rune-IsHigh b bs h).1
]

pub slice_rune :
    (c : Cursor) → at_end c ≡ false → slice c (advance_rune c) ≡ take (decode_rune c.rest).1 c.rest
unfolding slice
slice_rune c n =
    let e : (advance_rune c).offset - c.offset ≡ (decode_rune c.rest).1 =
      omega (arith, (advance_rune_place c).1) in
    rw e

pub Moved-rune : (c : Cursor) → at_end c ≡ false → Moved c (advance_rune c)
Moved-rune c n = let r : Reads AnyByte (advance_rune c) c = more n tt stop in Reads-Moved r

slice_rune_All {κ} :
    (P : ℕ → Type κ) (c : Cursor)
    → RuneClosed P
    → at_end c ≡ false
    → P (here c)
    → All P (slice c (advance_rune c))
slice_rune_All P c k n p =
    let e = rest_split c n in rw (slice_rune c n, e) (rune_All P (here c) (drop 1 c.rest) k p)

-- What holds of the first byte of each rune holds of every byte read.
pub slice-All {κ} : {P : ℕ → Type κ} {d c : Cursor} → RuneClosed P → Reads P d c → All P (slice c d)
slice-All {P = P} {d} {c} k stop = subst (All P) (sym (slice_self d)) tt
slice-All {P = P} {d} {c} k (more n h s) = rw (slice_split (Moved-rune c n) (Reads-Moved s)) (
    All-append P (slice c (advance_rune c)) (slice (advance_rune c) d) (slice_rune_All P c k n h)
      (slice-All k s))
