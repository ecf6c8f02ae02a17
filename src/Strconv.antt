-- ===== src/Strconv.antt =====
-- What the program uses of Go's strconv: `ParseInt` with base 0, and `FormatInt` with base 10.
pub mod RoundTrip
use thrift_ls.Common.Int.{ℤ, pos, negsuc}
use thrift_ls.Common.{
  ℕ, zero, suc, ◌+◌, ◌-◌, ◌*◌, ◌/◌, ◌%◌, ◌^◌, Bool, true, false, not, ◌&&◌, ◌||◌, [], ◌∷◌, Option,
  none, some, ltb, leb, ◌==◌, within, if◌then◌else◌, Bytes,
}

-- `ErrSyntax` and `ErrRange`
pub data ParseResult {ℓ} (A : Type ℓ) : Type ℓ where
  ok : A → ParseResult A
  syntax_error range_error : ParseResult A

-- The value of a digit, letters included; a base that has no such digit is a matter of the caller.
unfoldable pub digit_value : ℕ → Option ℕ
digit_value c =
    if within b'0' b'9' c
    then some (c - b'0')
    else if within b'a' b'z' c
    then some (c - b'a' + 10)
    else if within b'A' b'Z' c
    then some (c - b'A' + 10)
    else none

-- The loop of `ParseUint`, with the number so far and whether there was an underscore.
unfoldable pub scan_digits : ℕ → ℕ → Bytes → ℕ → Bool → ParseResult (ℕ × Bool)
unfolding digit_value
scan_digits base max [] n marks = ok (n, marks)
scan_digits base max (c ∷ cs) n marks =
    let marked = scan_digits base max cs n true in
    let shown : ParseResult (ℕ × Bool) = elim (digit_value c) [
      | none ↦ syntax_error
      | some d ↦
          let later = scan_digits base max cs (n * base + d) marks in
          if leb base d then syntax_error else if ltb max (n * base + d) then range_error else later
    ] in
    if c == b'_' then marked else shown

-- What the loop of `underscoreOK` saw last.
pub data Saw : Type 0 where
  start digit underscore other : Saw

after_digit : Saw → Bool
after_digit digit = true
after_digit _ = false

after_underscore : Saw → Bool
after_underscore underscore = true
after_underscore _ = false

unfoldable pub underscores_loop : Bool → Saw → Bytes → Bool
unfolding after_digit after_underscore
underscores_loop hex saw [] = not (after_underscore saw)
underscores_loop hex saw (c ∷ cs) =
    let digits = underscores_loop hex digit cs in
    let marks = after_digit saw && underscores_loop hex underscore cs in
    let others = not (after_underscore saw) && underscores_loop hex other cs in
    if within b'0' b'9' c || hex && (within b'a' b'f' c || within b'A' b'F' c)
    then digits
    else if c == b'_'
    then marks
    else others

-- `lower(c) == l`, of a lower-case letter
abbrev pub is_letter : ℕ → ℕ → Bool
is_letter l c = c == l || c + 32 == l

-- `underscoreOK`
unfoldable pub underscores_ok : Bytes → Bool
unfolding underscores_loop
underscores_ok (z ∷ p ∷ cs) =
    if z == b'0' && (is_letter b'b' p || is_letter b'o' p || is_letter b'x' p)
    then underscores_loop (is_letter b'x' p) digit cs
    else underscores_loop false start (z ∷ p ∷ cs)
underscores_ok cs = underscores_loop false start cs

-- The base that a prefix names, and what stands behind the prefix.
unfoldable pub base_of : Bytes → ℕ × Bytes
base_of (z ∷ p ∷ d ∷ cs) =
    if z == b'0'
    then if is_letter b'b' p
      then (2, d ∷ cs)
      else if is_letter b'o' p
      then (8, d ∷ cs)
      else if is_letter b'x' p
      then (16, d ∷ cs)
      else (8, p ∷ d ∷ cs)
    else (10, z ∷ p ∷ d ∷ cs)
base_of (z ∷ cs) = if z == b'0' then (8, cs) else (10, z ∷ cs)
base_of [] = (10, [])

checked : Bytes → ParseResult (ℕ × Bool) → ParseResult ℕ
unfolding underscores_ok
checked s (ok (n, marks)) = if marks && not (underscores_ok s) then syntax_error else ok n
checked s syntax_error = syntax_error
checked s range_error = range_error

-- `ParseUint` with base 0
unfoldable pub parse_uint : ℕ → Bytes → ParseResult ℕ
unfolding checked base_of scan_digits
parse_uint bits [] = syntax_error
parse_uint bits (c ∷ cs) =
    let (base, digits) = base_of (c ∷ cs) in
    checked (c ∷ cs) (scan_digits base (2 ^ bits - 1) digits 0 false)

-- The number -n.
unfoldable pub negated : ℕ → ℤ
negated zero = pos 0
negated (suc n) = negsuc n

-- The sign and the bounds of `ParseInt`.
unfoldable pub signed : ℕ → Bool → ParseResult ℕ → ParseResult ℤ
unfolding negated
signed bits minus (ok n) =
    if minus
    then if ltb (2 ^ (bits - 1)) n then range_error else ok (negated n)
    else if leb (2 ^ (bits - 1)) n
    then range_error
    else ok (pos n)
signed bits minus syntax_error = syntax_error
signed bits minus range_error = range_error

-- `ParseInt` with base 0
unfoldable pub parse_int : ℕ → Bytes → ParseResult ℤ
unfolding parse_uint signed
parse_int bits [] = syntax_error
parse_int bits (c ∷ cs) =
    if c == b'+'
    then signed bits false (parse_uint bits cs)
    else if c == b'-'
    then signed bits true (parse_uint bits cs)
    else signed bits false (parse_uint bits (c ∷ cs))

-- The digits of a number in front of a text; the fuel is a number that is not below it.
unfoldable pub digits_onto : ℕ → ℕ → Bytes → Bytes
digits_onto zero n out = out
digits_onto (suc f) n out =
    let more = digits_onto f (n / 10) ((b'0' + n % 10) ∷ out) in if n == 0 then out else more

unfoldable pub format_nat : ℕ → Bytes
unfolding digits_onto
format_nat n = if n == 0 then b'0' ∷ [] else digits_onto n n []

-- `FormatInt` with base 10
unfoldable pub format_int : ℤ → Bytes
unfolding format_nat
format_int (pos n) = format_nat n
format_int (negsuc n) = b'-' ∷ format_nat (suc n)
