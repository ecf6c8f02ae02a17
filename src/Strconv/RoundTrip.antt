-- ===== src/Strconv/RoundTrip.antt =====
-- strconv: `ParseInt` reads back what `FormatInt` writes.
use thrift_ls.Common.Int.{ℤ, pos, negsuc}
use thrift_ls.Common.{
  ℕ, zero, suc, ◌+◌, ◌-◌, ◌/◌, ◌%◌, ◌^◌, ◌≤◌, ◌<◌, ◌≡◌, refl, ◌∙◌, ap, subst, false, [], ◌∷◌, ◌==◌,
  Bytes, arith, Bool-cases, inl, inr,
}
use thrift_ls.Strconv.{
  ok, digit_value, scan_digits, base_of, parse_uint, signed, parse_int, negated, digits_onto,
  format_nat, format_int,
}

scan_last :
    (m n : ℕ) (out : Bytes)
    → n ≤ m
    → scan_digits 10 m ((b'0' + n % 10) ∷ out) (n / 10) false ≡ scan_digits 10 m out n false
unfolding scan_digits digit_value
scan_last m n out h = ground arith

scan-digits_onto :
    (f m n : ℕ) (out : Bytes)
    → n ≤ m
    → n ≤ f
    → scan_digits 10 m (digits_onto f n out) 0 false ≡ scan_digits 10 m out n false
unfolding digits_onto
scan-digits_onto zero m zero out h k = refl
scan-digits_onto zero m (suc n) out h k = elim k [ ]
scan-digits_onto (suc f) m n out h k = elim (Bool-cases (n == 0)) [
  | inl z ↦ rw z (ap (λ x. scan_digits 10 m out x false) (ground arith))
  | inr p ↦ rw p (
      scan-digits_onto f m (n / 10) ((b'0' + n % 10) ∷ out) (ground arith) (ground arith)
      ∙ scan_last m n out h)
]

-- A text that begins with a digit other than 0.
abbrev Leading : Bytes → Type 0
Leading s = (c : ℕ) × (cs : Bytes) × (s ≡ c ∷ cs) × (b'1' ≤ c) × (c ≤ b'9')

Leading-last :
    (f n : ℕ) (out : Bytes)
    → n / 10 ≡ 0
    → 0 < n
    → Leading (digits_onto f (n / 10) ((b'0' + n % 10) ∷ out))
unfolding digits_onto
Leading-last zero n out z k = (b'0' + n % 10, out, refl, omega arith, omega arith)
Leading-last (suc f) n out z k = (b'0' + n % 10, out, rw z refl, omega arith, omega arith)

digits_onto-Leading : (f n : ℕ) (out : Bytes) → n ≤ f → 0 < n → Leading (digits_onto f n out)
unfolding digits_onto
digits_onto-Leading zero zero out h k = elim k [ ]
digits_onto-Leading zero (suc n) out h k = elim h [ ]
digits_onto-Leading (suc f) n out h k =
    let p : (n == 0) ≡ false = ground arith in
    elim (Bool-cases (n / 10 == 0)) [
      | inl z ↦ rw p (Leading-last f n out (ground arith) k)
      | inr q ↦ rw p (digits_onto-Leading f (n / 10) _ (ground arith) (ground arith))
    ]

base_of-Leading : (c : ℕ) (cs : Bytes) → b'1' ≤ c → base_of (c ∷ cs) ≡ (10, c ∷ cs)
unfolding base_of
base_of-Leading c [] h = ground arith
base_of-Leading c (d ∷ []) h = ground arith
base_of-Leading c (d ∷ e ∷ cs) h = ground arith

parse_uint-Leading :
    (bits n : ℕ) (s : Bytes)
    → Leading s
    → scan_digits 10 (2 ^ bits - 1) s 0 false ≡ ok (n, false)
    → parse_uint bits s ≡ ok n
unfolding parse_uint
parse_uint-Leading bits n s (c, cs, e, lo, hi) h =
    let read : scan_digits 10 (2 ^ bits - 1) (c ∷ cs) 0 false ≡ ok (n, false) =
      subst (λ x. scan_digits 10 (2 ^ bits - 1) x 0 false ≡ ok (n, false)) e h in
    rw e (rw (base_of-Leading c cs lo) (rw read refl))

scan-digits_onto_nil :
    (m n : ℕ) → n ≤ m → scan_digits 10 m (digits_onto n n []) 0 false ≡ ok (n, false)
unfolding scan_digits
scan-digits_onto_nil m n h = scan-digits_onto n m n [] h (omega arith)

format_nat-digits_onto : (n : ℕ) → 0 < n → format_nat n ≡ digits_onto n n []
unfolding format_nat
format_nat-digits_onto n h = ground arith

format_nat-Leading : (n : ℕ) → 0 < n → Leading (format_nat n)
format_nat-Leading n h =
    rw (format_nat-digits_onto n h) (digits_onto-Leading n n [] (omega arith) h)

parse_uint_zero : (bits : ℕ) → parse_uint bits (format_nat 0) ≡ ok 0
unfolding parse_uint base_of scan_digits format_nat
parse_uint_zero bits = refl

parse_uint-format_nat : (bits n : ℕ) → n ≤ 2 ^ bits - 1 → parse_uint bits (format_nat n) ≡ ok n
parse_uint-format_nat bits zero h = parse_uint_zero bits
parse_uint-format_nat bits (suc n) h =
    parse_uint-Leading bits (suc n) _ (format_nat-Leading (suc n) (omega arith)) (
      rw (format_nat-digits_onto (suc n) (omega arith))
        (scan-digits_onto_nil (2 ^ bits - 1) (suc n) h))

-- A text without a sign is read as it stands.
parse_int-Leading :
    (bits : ℕ) (s : Bytes) → Leading s → parse_int bits s ≡ signed bits false (parse_uint bits s)
unfolding parse_int
parse_int-Leading bits s (c, cs, e, lo, hi) = rw e (ground arith)

-- A number in the range of a width.
abbrev pub InRange : ℕ → ℤ → Type 0
InRange bits (pos n) = n < 2 ^ (bits - 1)
InRange bits (negsuc n) = suc n ≤ 2 ^ (bits - 1)

parse_int_zero : parse_int 64 (format_int (pos 0)) ≡ ok (pos 0)
unfolding parse_int format_int signed format_nat parse_uint base_of scan_digits
parse_int_zero = refl

-- A number that fits into 64 bits is read back from its decimal print.
pub parse_int-format_int : (v : ℤ) → InRange 64 v → parse_int 64 (format_int v) ≡ ok v
unfolding parse_int format_int signed negated
parse_int-format_int (pos zero) h = parse_int_zero
parse_int-format_int (pos (suc n)) h =
    parse_int-Leading 64 _ (format_nat-Leading (suc n) (omega arith))
    ∙ rw (parse_uint-format_nat 64 (suc n) (omega arith)) (ground arith)
parse_int-format_int (negsuc n) h =
    rw (parse_uint-format_nat 64 (suc n) (omega arith)) (ground arith)
