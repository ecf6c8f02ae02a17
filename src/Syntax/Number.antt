-- ===== src/Syntax/Number.antt =====
-- syntax/lexer.go: `matchHex`, `matchInt`, `matchDouble`, the lengths of the numeric constants at the
-- front of a string, and the choice that `scanNumber` makes between them.
pub mod Ascii
use thrift_ls.Common.{
  ℕ, suc, ◌+◌, Bool, not, ◌&&◌, ◌||◌, [], ◌∷◌, Option, none, some, Bytes, ltb, leb, ◌==◌,
  if◌then◌else◌, length, drop, get_or,
}
use thrift_ls.Syntax.Chars.{is_digit, is_hex_digit}
use thrift_ls.Syntax.Token.{TokenKind}

-- `for i < len(s) && p(s[i]) { i++ }`: how many bytes at the front pass the test.
count_while : (ℕ → Bool) → Bytes → ℕ
count_while p [] = 0
count_while p (b ∷ bs) = if p b then suc (count_while p bs) else 0

-- `s[i]` behind a test `i < len(s)`: 0 past the end, which no test below accepts.
abbrev byte_at : Bytes → ℕ → ℕ
byte_at s i = get_or s i 0

is_sign : ℕ → Bool
is_sign c = c == b'+' || c == b'-'

-- `if i < len(s) && (s[i] == '+' || s[i] == '-') { i++ }`
sign_length : Bytes → ℕ
unfolding is_sign
sign_length s = if is_sign (byte_at s 0) then 1 else 0

-- `i+2 > len(s) || s[i] != '0' || (s[i+1] != 'x' && s[i+1] != 'X')`
lacks_hex_prefix : Bytes → ℕ → Bool
lacks_hex_prefix s i =
    ltb (length s) (i + 2)
    || not (byte_at s i == b'0')
    || not (byte_at s (i + 1) == b'x') && not (byte_at s (i + 1) == b'X')

unfoldable pub match_hex : Bytes → ℕ
unfolding sign_length count_while is_hex_digit lacks_hex_prefix
match_hex s =
    let i = sign_length s in
    let digits = count_while is_hex_digit (drop (i + 2) s) in
    if lacks_hex_prefix s i then 0 else if digits == 0 then 0 else i + 2 + digits

unfoldable pub match_int : Bytes → ℕ
unfolding sign_length count_while is_digit
match_int s =
    let i = sign_length s in
    let digits = count_while is_digit (drop i s) in if digits == 0 then 0 else i + digits

-- The exponent of `matchDouble`, from index `i` on, and its last test.
match_exponent : Bytes → ℕ → Bool → ℕ
unfolding sign_length count_while is_digit
match_exponent s i saw_digit =
    let j = i + 1 + sign_length (drop (i + 1) s) in
    let digits = count_while is_digit (drop j s) in
    if byte_at s i == b'e' || byte_at s i == b'E'
    then if digits == 0 then 0 else if not saw_digit then 0 else j + digits
    else if not saw_digit
    then 0
    else i

unfoldable pub match_double : Bytes → ℕ
unfolding sign_length count_while is_digit match_exponent
match_double s =
    let start = sign_length s in
    let whole = count_while is_digit (drop start s) in
    let i = start + whole in
    let digits = count_while is_digit (drop (i + 1) s) in
    if byte_at s i == b'.'
    then if digits == 0 then 0 else match_exponent s (i + 1 + digits) Bool.true
    else match_exponent s i (ltb 0 whole)

-- The `switch` of `scanNumber`: the longest match wins, an integer before a double.
longest : ℕ → ℕ → ℕ → Option (ℕ × TokenKind)
longest hex int dub =
    if ltb 0 hex && (leb int hex && leb dub hex)
    then some (hex, TokenKind.int_constant)
    else if ltb 0 int && leb dub int
    then some (int, TokenKind.int_constant)
    else if ltb 0 dub
    then some (dub, TokenKind.double_constant)
    else none

unfoldable pub match_number : Bytes → Option (ℕ × TokenKind)
unfolding match_hex match_int match_double longest
match_number s = longest (match_hex s) (match_int s) (match_double s)
