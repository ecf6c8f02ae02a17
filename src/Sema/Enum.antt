-- ===== src/Sema/Enum.antt =====
-- sema/enum.go: the values that the members of an enum have on the wire, an `int64` that wraps around.
pub mod Filled
use thrift_ls.Common.Int.{ℤ, pos, negsuc}
use thrift_ls.Common.{
  ℕ, zero, suc, ◌+◌, ◌-◌, ◌^◌, Bool, true, false, List, [], ◌∷◌, Option, none, some, ◌==◌,
  if◌then◌else◌,
}
use thrift_ls.Strconv.{ParseResult, ok, syntax_error, range_error, parse_int}
use thrift_ls.Syntax.Token.{Token}
use thrift_ls.Syntax.Tree.{EnumValue}

-- `EnumMemberValue`
pub record EnumMemberValue : Type 0 where
  pub member : EnumValue
  pub value : ℤ
  pub known : Bool

-- `val++`
unfoldable pub next_value : ℤ → ℤ
next_value (pos n) = if n == 2 ^ 63 - 1 then negsuc (2 ^ 63 - 1) else pos (n + 1)
next_value (negsuc zero) = pos 0
next_value (negsuc (suc n)) = negsuc n

-- The value of a member that is written out, with its `Known`, and `val` behind the member.
unfoldable pub read_value : ℤ → ParseResult ℤ → (ℤ × Bool) × ℤ
read_value val (ok v) = ((v, true), v)
read_value val syntax_error = ((pos 0, false), val)
read_value val range_error = ((pos 0, false), val)

-- The body of the loop.
unfoldable pub resolve_member : ℤ → Bool → Option Token → (ℤ × Bool) × ℤ
unfolding next_value read_value
resolve_member val known none = let v = if known then next_value val else val in ((v, known), v)
resolve_member val known (some t) = read_value val (parse_int 64 t.text)

unfoldable pub values_loop : ℤ → Bool → List EnumValue → List EnumMemberValue
unfolding resolve_member
values_loop val known [] = []
values_loop val known (m ∷ ms) =
    let ((v, k), later) = resolve_member val known m.value in
    record { member = m; value = v; known = k } ∷ values_loop later k ms

-- `EnumMemberValues`
unfoldable pub enum_member_values : List EnumValue → List EnumMemberValue
unfolding values_loop
enum_member_values ms = values_loop (negsuc 0) true ms

unfoldable pub is_implicit : EnumMemberValue → Bool
is_implicit mv = elim mv.member.value [ none ↦ true | some t ↦ false ]

-- `EnumImplicitValues`
unfoldable pub implicit_loop : List EnumMemberValue → List EnumMemberValue
unfolding is_implicit
implicit_loop [] = []
implicit_loop (mv ∷ mvs) = if is_implicit mv then mv ∷ implicit_loop mvs else implicit_loop mvs

unfoldable pub enum_implicit_values : List EnumValue → List EnumMemberValue
unfolding implicit_loop enum_member_values
enum_implicit_values ms = implicit_loop (enum_member_values ms)
