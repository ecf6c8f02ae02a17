-- ===== src/Syntax/Cursor/Lines.antt =====
-- The line that the lexer counts, against the line breaks of the text.
use native.Mathlib.Nat.{zero-add, suc-add, add_assoc}
use thrift_ls.Common.{
  ℕ, zero, suc, ◌+◌, ◌-◌, ◌≤◌, ◌<◌, ◌≡◌, refl, ◌∙◌, ap, Bool, false, ◌&&◌, ◌||◌, not, [], ◌∷◌,
  arith, Bytes, ◌==◌, if◌then◌else◌, take, drop, All, dec_lt,
}
use thrift_ls.Utf8.Facts.{IsHigh, decode_ascii, decode_rune-IsHigh}
use thrift_ls.Utf8.{rune_self, decode_rune}
use thrift_ls.Syntax.Cursor.{Cursor, starts_lf, at_end, count_char, advance_rune}
use thrift_ls.Syntax.Cursor.Reads.{
  Reads, stop, more, Reads-Moved, rune_width, advance_rune_place, cursor, not_at_end,
}

-- A line ends with a newline, or with a carriage return that no newline follows.
pub ends_line : ℕ → Bytes → Bool
ends_line b after = b == b'\n' || b == b'\r' && not (starts_lf after)

-- The lines that end within the first `n` bytes of a text.
pub line_breaks : ℕ → Bytes → ℕ
line_breaks zero s = 0
line_breaks (suc n) [] = 0
line_breaks (suc n) (b ∷ bs) = (if ends_line b bs then 1 else 0) + line_breaks n bs

line_breaks-add :
    (n m : ℕ) (s : Bytes) → line_breaks (n + m) s ≡ line_breaks n s + line_breaks m (drop n s)
unfolding line_breaks
line_breaks-add zero m s = simp zero-add
line_breaks-add (suc n) m (b ∷ s) = simp (suc-add, line_breaks-add n m s, add_assoc)
line_breaks-add (suc n) zero [] = simp suc-add
line_breaks-add (suc n) (suc m) [] = simp suc-add

ends_line-IsHigh : (b : ℕ) (bs : Bytes) → IsHigh b → ends_line b bs ≡ false
unfolding ends_line
ends_line-IsHigh b bs h = ground arith

line_breaks-IsHigh : (n : ℕ) (s : Bytes) → All IsHigh (take n s) → line_breaks n s ≡ 0
unfolding line_breaks
line_breaks-IsHigh zero s h = refl
line_breaks-IsHigh (suc n) [] h = refl
line_breaks-IsHigh (suc n) (b ∷ s) (p, h) =
    rw (ends_line-IsHigh b s p) (omega (arith, line_breaks-IsHigh n s h))

count_char-line :
    (r : ℕ) (after : Bytes) (c : Cursor)
    → (count_char r after c).line ≡ c.line + (if ends_line r after then 1 else 0)
unfolding count_char starts_lf ends_line
count_char-line r after c = ground arith

advance_ascii-line :
    (b : ℕ) (bs : Bytes) (o l k : ℕ)
    → b < rune_self
    → let c = cursor (b ∷ bs) o l k in
      (advance_rune c).line ≡ l + line_breaks (decode_rune (b ∷ bs)).1 (b ∷ bs)
unfolding advance_rune line_breaks
advance_ascii-line b bs o l k a =
    rw (decode_ascii b bs a) (omega (arith, count_char-line b bs (cursor (b ∷ bs) o l k)))

advance_high-line :
    (b : ℕ) (bs : Bytes) (o l k : ℕ)
    → rune_self ≤ b
    → let c = cursor (b ∷ bs) o l k in
      (advance_rune c).line ≡ l + line_breaks (decode_rune (b ∷ bs)).1 (b ∷ bs)
unfolding advance_rune
advance_high-line b bs o l k h =
    let (r, size) = decode_rune (b ∷ bs) in
    let after = drop size (b ∷ bs) in
    let (r_high, bytes) = decode_rune-IsHigh b bs h in
    rw (line_breaks-IsHigh size (b ∷ bs) bytes)
      (count_char-line r after (cursor (b ∷ bs) o l k) ∙ rw (ends_line-IsHigh r after r_high))

advance_rune-line :
    (c : Cursor)
    → at_end c ≡ false
    → (advance_rune c).line ≡ c.line + line_breaks (decode_rune c.rest).1 c.rest
advance_rune-line =
    not_at_end (λ c. (advance_rune c).line ≡ c.line + line_breaks (decode_rune c.rest).1 c.rest)
      λ b bs o l k. elim (dec_lt b rune_self) [
        | yes a ↦ advance_ascii-line b bs o l k a
        | no a ↦ advance_high-line b bs o l k (omega arith)
      ]

-- The lexer's line grows by the line breaks between the two cursors.
pub Reads-line {κ} :
    {P : ℕ → Type κ} {d c : Cursor}
    → Reads P d c
    → d.line ≡ c.line + line_breaks (d.offset - c.offset) c.rest
unfolding line_breaks
Reads-line {d = d} stop = let e : d.offset - d.offset ≡ 0 = omega arith in rw e (omega arith)
Reads-line {d = d} {c = c} (more n h s) =
    let w = (decode_rune c.rest).1 in
    let k = d.offset - (advance_rune c).offset in
    let (r, o) = advance_rune_place c in
    let e : d.offset - c.offset ≡ w + k =
      omega (arith, o, (Reads-Moved s).le, (rune_width c n).0) in
    let rest : line_breaks k (advance_rune c).rest ≡ line_breaks k (drop w c.rest) =
      ap (line_breaks k) r in
    rw e (omega (arith, Reads-line s, rest, advance_rune-line c n, line_breaks-add w k c.rest))
