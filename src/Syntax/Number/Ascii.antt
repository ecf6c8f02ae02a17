-- ===== src/Syntax/Number/Ascii.antt =====
-- A numeric constant is not empty and consists of ASCII bytes that are there.
use native.Mathlib.Nat.{zero-add, suc-add}
use thrift_ls.Common.{
  ℕ, zero, suc, ◌+◌, ◌<◌, ◌≡◌, ◌⊎◌, inl, inr, Bool, true, false, not, ◌||◌, [], ◌∷◌, some, arith,
  Bytes, ◌==◌, if_elim, drop,
}
use thrift_ls.Utf8.{rune_self}
use thrift_ls.Syntax.Chars.{is_digit, is_hex_digit}
use thrift_ls.Syntax.Number.{
  count_while, is_sign, sign_length, byte_at, lacks_hex_prefix, longest, match_hex, match_int,
  match_exponent, match_double, match_number,
}
use thrift_ls.Syntax.Token.{TokenKind}

-- The first `n` bytes of `s` are there and are ASCII.
abbrev pub AsciiTo : ℕ → Bytes → Type 0
AsciiTo zero s = Unit
AsciiTo (suc n) [] = ⊥
AsciiTo (suc n) (b ∷ s) = (b < rune_self) × AsciiTo n s

AsciiTo-add : (n m : ℕ) (s : Bytes) → AsciiTo n s → AsciiTo m (drop n s) → AsciiTo (n + m) s
AsciiTo-add zero m s h k = rw zero-add k
AsciiTo-add (suc n) m [] h k = absurd h
AsciiTo-add (suc n) m (b ∷ s) (p, h) k = rw suc-add (p, AsciiTo-add n m s h k)

-- A test that only ASCII bytes pass; it fails past the end, where `byte_at` is 0.
abbrev AsciiTest : (ℕ → Bool) → Type 0
AsciiTest p = (b : ℕ) → p b ≡ true → (0 < b) × (b < rune_self)

count_while-AsciiTo : (p : ℕ → Bool) (s : Bytes) → AsciiTest p → AsciiTo (count_while p s) s
unfolding count_while
count_while-AsciiTo p [] k = tt
count_while-AsciiTo p (b ∷ s) k =
    if_elim (λ n. AsciiTo n (b ∷ s)) (p b) (λ e. ((k b e).1, count_while-AsciiTo p s k)) (λ e. tt)

byte_at-AsciiTo :
    (p : ℕ → Bool) (i : ℕ) (s : Bytes)
    → AsciiTest p
    → AsciiTo i s
    → p (byte_at s i) ≡ true
    → AsciiTo (i + 1) s
byte_at-AsciiTo p zero [] k h e = absurd (omega (arith, (k 0 e).0))
byte_at-AsciiTo p zero (b ∷ s) k h e = ((k b e).1, tt)
byte_at-AsciiTo p (suc i) [] k h e = absurd h
byte_at-AsciiTo p (suc i) (b ∷ s) k (q, h) e = rw suc-add (q, byte_at-AsciiTo p i s k h e)

sign_length-AsciiTo : (s : Bytes) → AsciiTo (sign_length s) s
unfolding sign_length
sign_length-AsciiTo [] = tt
sign_length-AsciiTo (b ∷ s) =
    if_elim (λ n. AsciiTo n (b ∷ s)) (is_sign b) (λ e. (unfold is_sign in ground arith, tt))
      (λ e. tt)

digit-AsciiTest : AsciiTest is_digit
unfolding is_digit
digit-AsciiTest b e = ground arith

hex_digit-AsciiTest : AsciiTest is_hex_digit
unfolding is_hex_digit
hex_digit-AsciiTest b e = ground arith

match_int-AsciiTo : (s : Bytes) → AsciiTo (match_int s) s
unfolding match_int
match_int-AsciiTo s =
    let i = sign_length s in
    let digits = count_while is_digit (drop i s) in
    if_elim (λ n. AsciiTo n s) (digits == 0) (λ _. tt)
      (λ _.
        AsciiTo-add i digits s (sign_length-AsciiTo s)
          (count_while-AsciiTo is_digit (drop i s) digit-AsciiTest))

abbrev is_zero : ℕ → Bool
is_zero b = b == b'0'

abbrev is_x : ℕ → Bool
is_x b = b == b'x' || b == b'X'

abbrev is_dot : ℕ → Bool
is_dot b = b == b'.'

abbrev is_e : ℕ → Bool
is_e b = b == b'e' || b == b'E'

zero-AsciiTest : AsciiTest is_zero
zero-AsciiTest b e = ground arith

x-AsciiTest : AsciiTest is_x
x-AsciiTest b e = ground arith

dot-AsciiTest : AsciiTest is_dot
dot-AsciiTest b e = ground arith

e-AsciiTest : AsciiTest is_e
e-AsciiTest b e = ground arith

hex_prefix :
    (s : Bytes) (i : ℕ)
    → lacks_hex_prefix s i ≡ false
    → (is_zero (byte_at s i) ≡ true) × (is_x (byte_at s (i + 1)) ≡ true)
unfolding lacks_hex_prefix
hex_prefix s i h = ground arith

match_hex-AsciiTo : (s : Bytes) → AsciiTo (match_hex s) s
unfolding match_hex
match_hex-AsciiTo s =
    if_elim (λ n. AsciiTo n s) (lacks_hex_prefix s i) (λ _. tt)
      (λ t.
        if_elim (λ n. AsciiTo n s) (digits == 0) (λ _. tt)
          (λ _.
            AsciiTo-add (i + 2) digits s (prefix (hex_prefix s i t).0 (hex_prefix s i t).1)
              (count_while-AsciiTo is_hex_digit (drop (i + 2) s) hex_digit-AsciiTest)))
  where
    i : ℕ
    i = sign_length s

    digits : ℕ
    digits = count_while is_hex_digit (drop (i + 2) s)

    prefix : is_zero (byte_at s i) ≡ true → is_x (byte_at s (i + 1)) ≡ true → AsciiTo (i + 2) s
    prefix z x =
        let e : i + 2 ≡ i + 1 + 1 = omega arith in
        rw e (
          byte_at-AsciiTo is_x (i + 1) s x-AsciiTest
            (byte_at-AsciiTo is_zero i s zero-AsciiTest (sign_length-AsciiTo s) z) x)

match_exponent-AsciiTo :
    (s : Bytes) (i : ℕ) (saw : Bool) → AsciiTo i s → AsciiTo (match_exponent s i saw) s
unfolding match_exponent
match_exponent-AsciiTo s i saw h =
    if_elim (λ n. AsciiTo n s) (is_e (byte_at s i))
      (λ t.
        if_elim (λ n. AsciiTo n s) (digits == 0) (λ _. tt)
          (λ _.
            if_elim (λ n. AsciiTo n s) (not saw) (λ _. tt)
              (λ _.
                AsciiTo-add j digits s
                  (AsciiTo-add (i + 1) sign s (byte_at-AsciiTo is_e i s e-AsciiTest h t)
                    (sign_length-AsciiTo (drop (i + 1) s)))
                  (count_while-AsciiTo is_digit (drop j s) digit-AsciiTest))))
      (λ _. if_elim (λ n. AsciiTo n s) (not saw) (λ _. tt) (λ _. h))
  where
    sign : ℕ
    sign = sign_length (drop (i + 1) s)

    j : ℕ
    j = i + 1 + sign

    digits : ℕ
    digits = count_while is_digit (drop j s)

match_double-AsciiTo : (s : Bytes) → AsciiTo (match_double s) s
unfolding match_double
match_double-AsciiTo s =
    if_elim (λ n. AsciiTo n s) (is_dot (byte_at s i))
      (λ t.
        if_elim (λ n. AsciiTo n s) (digits == 0) (λ _. tt)
          (λ _. match_exponent-AsciiTo s (i + 1 + digits) true (
            AsciiTo-add (i + 1) digits s (byte_at-AsciiTo is_dot i s dot-AsciiTest whole t)
              (count_while-AsciiTo is_digit (drop (i + 1) s) digit-AsciiTest))))
      (λ _. match_exponent-AsciiTo s i _ whole)
  where
    start : ℕ
    start = sign_length s

    i : ℕ
    i = start + count_while is_digit (drop start s)

    digits : ℕ
    digits = count_while is_digit (drop (i + 1) s)

    whole : AsciiTo i s
    whole =
        AsciiTo-add start (count_while is_digit (drop start s)) s (sign_length-AsciiTo s)
          (count_while-AsciiTo is_digit (drop start s) digit-AsciiTest)

longest_cases :
    (hex int dub : ℕ) {n : ℕ} {kind : TokenKind}
    → longest hex int dub ≡ some (n, kind)
    → (0 < n)
      × ((n ≡ hex) ⊎ ((n ≡ int) ⊎ (n ≡ dub)))
      × ((kind ≡ TokenKind.int_constant) ⊎ (kind ≡ TokenKind.double_constant))
unfolding longest
longest_cases hex int dub h = ground arith

-- `scanNumber` takes at least one byte, and only ASCII bytes that are there.
pub match_number-AsciiTo :
    (s : Bytes) {n : ℕ} {kind : TokenKind}
    → match_number s ≡ some (n, kind)
    → (0 < n) × AsciiTo n s × ((kind ≡ TokenKind.int_constant) ⊎ (kind ≡ TokenKind.double_constant))
unfolding match_number
match_number-AsciiTo s h =
    let (pos, which, is_kind) = longest_cases (match_hex s) (match_int s) (match_double s) h in
    (
      pos,
      elim which [
        | inl e ↦ rw e (match_hex-AsciiTo s)
        | inr (inl e) ↦ rw e (match_int-AsciiTo s)
        | inr (inr e) ↦ rw e (match_double-AsciiTo s)
      ],
      is_kind,
    )
