-- ===== src/Utf8/Facts.antt =====
-- What holds of `DecodeRune` on every input, invalid UTF-8 included.
use thrift_ls.Common.{
  ℕ, suc, ◌≤◌, ◌<◌, ◌≡◌, refl, ◌⊎◌, inl, inr, Bool, true, false, [], ◌∷◌, arith, Bytes, length,
  take, All, if◌then◌else◌, within, ltb, ◌==◌, Bool-cases, dec_lt,
}
use thrift_ls.Utf8.{
  rune_self, invalid_rune, decode_two, decode_three, decode_four, decode_multi, decode_rune,
}

-- A byte of a multi-byte rune, or a byte that is no part of a rune.
abbrev pub IsHigh : ℕ → Type 0
IsHigh b = rune_self ≤ b

-- The rune at the front of `s`, whose first byte is not ASCII: its width lies between 1 and what is
-- there, it is not ASCII, and neither is any byte of it.
record Decodes (s : Bytes) (r : ℕ × ℕ) : Type 0 where
  pos : 1 ≤ r.1
  le : r.1 ≤ length s
  high : rune_self ≤ r.0
  bytes : All IsHigh (take r.1 s)

two-Decodes : (b : ℕ) (bs : Bytes) → 0xC2 ≤ b → Decodes (b ∷ bs) (decode_two b bs)
unfolding decode_two
two-Decodes b [] h = ground arith
two-Decodes b (b1 ∷ bs) h = ground arith

three-Decodes :
    (lo hi b : ℕ) (bs : Bytes)
    → 0xE0 ≤ b
    → 0x80 ≤ lo
    → (0xE1 ≤ b) ⊎ (0xA0 ≤ lo)
    → Decodes (b ∷ bs) (decode_three lo hi b bs)
unfolding decode_three
three-Decodes lo hi b [] h k l = ground arith
three-Decodes lo hi b (b1 ∷ []) h k l = ground arith
three-Decodes lo hi b (b1 ∷ b2 ∷ bs) h k l = ground arith

four-Decodes :
    (lo hi b : ℕ) (bs : Bytes)
    → 0xF0 ≤ b
    → 0x80 ≤ lo
    → (0xF1 ≤ b) ⊎ (0x90 ≤ lo)
    → Decodes (b ∷ bs) (decode_four lo hi b bs)
unfolding decode_four
four-Decodes lo hi b [] h k l = ground arith
four-Decodes lo hi b (b1 ∷ []) h k l = ground arith
four-Decodes lo hi b (b1 ∷ b2 ∷ []) h k l = ground arith
four-Decodes lo hi b (b1 ∷ b2 ∷ b3 ∷ bs) h k l = ground arith

-- Split on the tests of `decode_multi` in turn.
Decodes-if :
    (s : Bytes) (c : Bool) {x y : ℕ × ℕ}
    → (c ≡ true → Decodes s x)
    → Decodes s y
    → Decodes s (if c then x else y)
Decodes-if s true hx hy = hx refl
Decodes-if s false hx hy = hy

invalid-Decodes : (b : ℕ) (bs : Bytes) → rune_self ≤ b → Decodes (b ∷ bs) invalid_rune
invalid-Decodes b bs h = ground arith

multi-Decodes : (b : ℕ) (bs : Bytes) → rune_self ≤ b → Decodes (b ∷ bs) (decode_multi b bs)
unfolding decode_multi
multi-Decodes b bs h =
    Decodes-if _ (within 0xC2 0xDF b) (λ t. two-Decodes b bs (ground arith))
      (Decodes-if _ (b == 0xE0)
        (λ t. three-Decodes 0xA0 0xBF b bs (ground arith) (omega arith) (ground arith))
        (Decodes-if _ (b == 0xED)
          (λ t. three-Decodes 0x80 0x9F b bs (ground arith) (omega arith) (ground arith))
          (Decodes-if _ (within 0xE1 0xEF b)
            (λ t. three-Decodes 0x80 0xBF b bs (ground arith) (omega arith) (ground arith))
            (Decodes-if _ (b == 0xF0)
              (λ t. four-Decodes 0x90 0xBF b bs (ground arith) (omega arith) (ground arith))
              (Decodes-if _ (within 0xF1 0xF3 b)
                (λ t. four-Decodes 0x80 0xBF b bs (ground arith) (omega arith) (ground arith))
                (Decodes-if _ (b == 0xF4)
                  (λ t. four-Decodes 0x80 0x8F b bs (ground arith) (omega arith) (ground arith))
                  (invalid-Decodes b bs h)))))))

pub decode_ascii : (b : ℕ) (bs : Bytes) → b < rune_self → decode_rune (b ∷ bs) ≡ (b, 1)
unfolding decode_rune
decode_ascii b bs h = ground arith

decode_high : (b : ℕ) (bs : Bytes) → rune_self ≤ b → decode_rune (b ∷ bs) ≡ decode_multi b bs
unfolding decode_rune
decode_high b bs h = elim (Bool-cases (ltb b rune_self)) [
  | inl t ↦ absurd (ground arith)
  | inr e ↦ rw e
]

-- A rune that starts with a byte from 0x80 on is not ASCII, and neither is any byte of it.
pub decode_rune-IsHigh :
    (b : ℕ) (bs : Bytes)
    → rune_self ≤ b
    → (rune_self ≤ (decode_rune (b ∷ bs)).0) × All IsHigh (take (decode_rune (b ∷ bs)).1 (b ∷ bs))
decode_rune-IsHigh b bs h =
    let d = multi-Decodes b bs h in rw (decode_high b bs h) (d.high, d.bytes)

-- A rune is at least one byte wide, and no wider than what is there.
pub decode_rune_width :
    (b : ℕ) (bs : Bytes)
    → (1 ≤ (decode_rune (b ∷ bs)).1) × ((decode_rune (b ∷ bs)).1 ≤ suc (length bs))
decode_rune_width b bs = elim (dec_lt b rune_self) [
  | yes p ↦ rw (decode_ascii b bs p) (omega arith)
  | no p ↦
      let h : rune_self ≤ b = omega arith in
      let d = multi-Decodes b bs h in rw (decode_high b bs h) (d.pos, d.le)
]
