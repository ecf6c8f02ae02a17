-- ===== src/Syntax/Cursor/Reads.antt =====
-- Reading on from a cursor, rune by rune: what a run of `advanceRune` (and of `advanceByte`, over
-- ASCII) has to do with the text between the two cursors.
use thrift_ls.Common.{
  ℕ, ◌+◌, ◌-◌, ◌≤◌, ◌<◌, ◌≡◌, refl, ◌∙◌, ap, subst, true, false, [], ◌∷◌, arith, Bytes, length,
  drop, get_or, drop-drop, length-drop,
}
use thrift_ls.Utf8.Facts.{decode_ascii, decode_rune_width}
use thrift_ls.Utf8.{rune_self, decode_rune}
use thrift_ls.Syntax.Cursor.{
  Cursor, is_nil, at_end, here, peek_byte, count_char, advance_byte, advance_rune,
}

-- From `c`, reading rune by rune, one comes to `d`; the first byte of each rune has the property.
pub data Reads {κ} (P : ℕ → Type κ) (d : Cursor) : Cursor → Type κ where
  stop : Reads P d d
  more : {c : Cursor} → at_end c ≡ false → P (here c) → Reads P d (advance_rune c) → Reads P d c

abbrev pub AnyByte : ℕ → Type 0
AnyByte b = Unit {0}

module _ {κ} {P : ℕ → Type κ} where
  pub Reads-trans : {e d c : Cursor} → Reads P e d → Reads P d c → Reads P e c
  Reads-trans r stop = r
  Reads-trans r (more n h s) = more n h (Reads-trans r s)

  pub Reads-mono {κ'} :
      {Q : ℕ → Type κ'} {d c : Cursor} → ((b : ℕ) → P b → Q b) → Reads P d c → Reads Q d c
  Reads-mono k stop = stop
  Reads-mono k (more n h s) = more n (k _ h) (Reads-mono k s)

-- Before the end there is a byte, and `here` is it.
pub rest_split : (c : Cursor) → at_end c ≡ false → c.rest ≡ here c ∷ drop 1 c.rest
unfolding at_end peek_byte
rest_split c h = split c.rest h
  where
    split : (s : Bytes) → is_nil s ≡ false → s ≡ get_or s 0 0 ∷ drop 1 s
    split [] e = cc
    split (b ∷ bs) e = refl

pub rest_nil : (c : Cursor) → at_end c ≡ true → c.rest ≡ []
unfolding at_end
rest_nil c h = split c.rest h
  where
    split : (s : Bytes) → is_nil s ≡ true → s ≡ []
    split [] e = refl
    split (b ∷ bs) e = cc

-- The effect on line and column leaves the place alone.
count_char_place :
    (r : ℕ) (after : Bytes) (c : Cursor)
    → ((count_char r after c).rest ≡ c.rest) × ((count_char r after c).offset ≡ c.offset)
unfolding count_char
count_char_place r after c = ground arith

pub advance_rune_place :
    (c : Cursor)
    → let n = (decode_rune c.rest).1 in
      ((advance_rune c).rest ≡ drop n c.rest) × ((advance_rune c).offset ≡ c.offset + n)
unfolding advance_rune
advance_rune_place c =
    let (p, q) = count_char_place (decode_rune c.rest).0 (drop (decode_rune c.rest).1 c.rest) c in
    (rw p, rw q)

abbrev pub cursor : Bytes → ℕ → ℕ → ℕ → Cursor
cursor s o l k = record { rest = s; offset = o; line = l; col = k }

-- A fact of every cursor that is not at the end, by the first byte of the text that follows.
pub not_at_end :
    (P : Cursor → Type 0)
    → ((b : ℕ) (bs : Bytes) (o l k : ℕ) → P (cursor (b ∷ bs) o l k))
    → (c : Cursor) → at_end c ≡ false
    → P c
unfolding at_end
not_at_end P h c e = split c.rest e
  where
    split : (s : Bytes) → is_nil s ≡ false → P (cursor s c.offset c.line c.col)
    split [] e = cc
    split (b ∷ bs) e = h b bs c.offset c.line c.col

pub rune_width :
    (c : Cursor)
    → at_end c ≡ false
    → (1 ≤ (decode_rune c.rest).1) × ((decode_rune c.rest).1 ≤ length c.rest)
rune_width =
    not_at_end (λ c. (1 ≤ (decode_rune c.rest).1) × ((decode_rune c.rest).1 ≤ length c.rest))
      (λ b bs o l k. decode_rune_width b bs)

-- Over an ASCII byte the two ways to move on agree.
pub advance_byte-advance_rune :
    (c : Cursor) → at_end c ≡ false → here c < rune_self → advance_byte c ≡ advance_rune c
unfolding advance_byte advance_rune peek_byte
advance_byte-advance_rune =
    not_at_end (λ c. here c < rune_self → advance_byte c ≡ advance_rune c)
      (λ b bs o l k h. rw (decode_ascii b bs h))

module _ {κ} {P : ℕ → Type κ} where
  -- One step by `advanceByte`.
  pub Reads-byte :
      {d : Cursor} (c : Cursor)
      → at_end c ≡ false
      → here c < rune_self
      → P (here c)
      → Reads P d (advance_byte c)
      → Reads P d c
  Reads-byte {d} c n a h r = more n h (subst (Reads P d) (advance_byte-advance_rune c n a) r)

-- Where the later cursor stands in the text that the earlier one had before it.
pub record Moved (c d : Cursor) : Type 0 where
  pub le : c.offset ≤ d.offset
  pub fits : d.offset - c.offset ≤ length c.rest
  pub rest : d.rest ≡ drop (d.offset - c.offset) c.rest

module _ {κ} {P : ℕ → Type κ} where
  pub Reads-Moved : {d c : Cursor} → Reads P d c → Moved c d
  Reads-Moved {d} {c} stop = record {
    le = omega arith;
    fits = omega arith;
    rest = let e : d.offset - d.offset ≡ 0 = omega arith in rw e;
  }
  Reads-Moved {d} {c} (more n h s) = step (Reads-Moved s) (rune_width c n) (advance_rune_place c)
    where
      step :
          Moved (advance_rune c) d
          → (1 ≤ (decode_rune c.rest).1) × ((decode_rune c.rest).1 ≤ length c.rest)
          → ((advance_rune c).rest ≡ drop (decode_rune c.rest).1 c.rest)
            × ((advance_rune c).offset ≡ c.offset + (decode_rune c.rest).1)
          → Moved c d
      step m (pos, le) (r, o) =
          let w = (decode_rune c.rest).1 in
          let len : length (advance_rune c).rest ≡ length c.rest - w =
            ap length r ∙ length-drop w c.rest in
          let e : w + (d.offset - (advance_rune c).offset) ≡ d.offset - c.offset =
            omega (arith, m.le) in
          record {
            le = omega (arith, m.le);
            fits = omega (arith, m.le, m.fits);
            rest =
                m.rest
                ∙ ap (drop (d.offset - (advance_rune c).offset)) r
                ∙ drop-drop (d.offset - (advance_rune c).offset) w c.rest
                ∙ ap (λ n. drop n c.rest) e;
          }

-- A step leaves fewer bytes to read.
pub rune_shrinks : (c : Cursor) → at_end c ≡ false → length (advance_rune c).rest < length c.rest
rune_shrinks c n =
    let w = (decode_rune c.rest).1 in
    let len : length (advance_rune c).rest ≡ length c.rest - w =
      ap length (advance_rune_place c).0 ∙ length-drop w c.rest in
    omega (arith, rune_width c n)

pub byte_shrinks :
    (c : Cursor)
    → at_end c ≡ false
    → here c < rune_self
    → length (advance_byte c).rest < length c.rest
byte_shrinks c n a = rw (advance_byte-advance_rune c n a) (rune_shrinks c n)

pub Moved-shrinks : {c d : Cursor} → Moved c d → length d.rest ≤ length c.rest
Moved-shrinks {c} {d} m = omega (arith, ap length m.rest, length-drop (d.offset - c.offset) c.rest)
