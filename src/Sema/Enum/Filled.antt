-- ===== src/Sema/Enum/Filled.antt =====
-- sema/enum.go: writing out the values that members have by their position changes no value.
use thrift_ls.Common.Int.{ℤ, pos, negsuc}
use thrift_ls.Common.{
  ℕ, zero, suc, ◌-◌, ◌^◌, ◌≡◌, refl, ap, ◌∙◌, Bool, true, false, ◌&&◌, List, [], ◌∷◌, Option, none,
  some, ◌==◌, if◌then◌else◌, map, arith, Bytes, Bool-cases, inl, inr,
}
use thrift_ls.Sema.Enum.{
  EnumMemberValue, next_value, read_value, resolve_member, values_loop, enum_member_values,
  is_implicit,
}
use thrift_ls.Strconv.RoundTrip.{InRange, parse_int-format_int}
use thrift_ls.Strconv.{
  ParseResult, ok, syntax_error, range_error, parse_int, signed, negated, parse_uint, format_int,
}
use thrift_ls.Syntax.Token.{Token}
use thrift_ls.Syntax.Tree.{EnumValue}

signed-InRange :
    (minus : Bool) (r : ParseResult ℕ) (v : ℤ) → signed 64 minus r ≡ ok v → InRange 64 v
unfolding signed negated
signed-InRange minus (ok zero) (pos n) h = ground arith
signed-InRange minus (ok (suc m)) (pos n) h = ground arith
signed-InRange minus (ok zero) (negsuc n) h = ground arith
signed-InRange minus (ok (suc m)) (negsuc n) h = ground arith
signed-InRange minus syntax_error v h = absurd (cc)
signed-InRange minus range_error v h = absurd (cc)

parse_int-InRange : (s : Bytes) (v : ℤ) → parse_int 64 s ≡ ok v → InRange 64 v
unfolding parse_int
parse_int-InRange [] v h = absurd (cc)
parse_int-InRange (c ∷ cs) v h = elim (Bool-cases (c == b'+')) [
  | inl p ↦ signed-InRange false (parse_uint 64 cs) v (rw p at h)
  | inr p ↦ elim (Bool-cases (c == b'-')) [
    | inl m ↦ signed-InRange true (parse_uint 64 cs) v (rw (p, m) at h)
    | inr m ↦ signed-InRange false (parse_uint 64 (c ∷ cs)) v (rw (p, m) at h)
  ]
]

next_value-InRange : (v : ℤ) → InRange 64 v → InRange 64 (next_value v)
unfolding next_value
next_value-InRange (pos n) h = elim (Bool-cases (n == 2 ^ 63 - 1)) [
  | inl p ↦ rw p (omega arith)
  | inr p ↦ rw p (ground arith)
]
next_value-InRange (negsuc zero) h = omega arith
next_value-InRange (negsuc (suc n)) h = omega arith

-- The name and the number of a member, as its text: `t` is the token of the value.
abbrev pub explicit : (Bytes → Token) → EnumMemberValue → EnumValue
explicit tok mv = record mv.member { value = some (tok (format_int mv.value)) }

-- The member itself, or with its value where that is picked.
unfoldable pub written : (Bytes → Token) → Bool → EnumMemberValue → EnumValue
unfolding is_implicit
written tok pick mv = if pick && (is_implicit mv && mv.known) then explicit tok mv else mv.member

-- The members of which some, by `picks`, get the value that they have by their position.
unfoldable pub filled : (Bytes → Token) → List Bool → List EnumMemberValue → List EnumValue
unfolding written
filled tok picks [] = []
filled tok [] (mv ∷ mvs) = mv.member ∷ filled tok [] mvs
filled tok (b ∷ bs) (mv ∷ mvs) = written tok b mv ∷ filled tok bs mvs

read_value-InRange :
    (val : ℤ) (r : ParseResult ℤ)
    → InRange 64 val
    → ((v : ℤ) → r ≡ ok v → InRange 64 v)
    → InRange 64 (read_value val r).1
unfolding read_value
read_value-InRange val (ok v) h f = f v refl
read_value-InRange val syntax_error h f = h
read_value-InRange val range_error h f = h

pub resolve_member-InRange :
    (val : ℤ) (k : Bool) (t : Option Token) → InRange 64 val → InRange 64 (resolve_member val k t).1
unfolding resolve_member
resolve_member-InRange val true none h = next_value-InRange val h
resolve_member-InRange val false none h = h
resolve_member-InRange val k (some t) h = read_value-InRange val _ h (parse_int-InRange t.text)

-- The value and whether it is known.
abbrev pub outcome : EnumMemberValue → ℤ × Bool
outcome mv = (mv.value, mv.known)

module _ (tok : Bytes → Token) (tok-text : (s : Bytes) → (tok s).text ≡ s) where
  -- A value that is written out is read back.
  resolve_member-written :
      (val v : ℤ) (k : Bool)
      → InRange 64 v
      → resolve_member val k (some (tok (format_int v))) ≡ ((v, true), v)
  unfolding resolve_member read_value
  resolve_member-written val v k h =
      rw (tok-text (format_int v)) (rw (parse_int-format_int v h) refl)

  abbrev resolved : ℤ → Bool → EnumValue → EnumMemberValue
  resolved val k m = record {
    member = m;
    value = (resolve_member val k m.value).0.0;
    known = (resolve_member val k m.value).0.1;
  }

  pub resolve_member-written_option :
      (b : Bool) (val : ℤ) (k : Bool) (m : EnumValue) (o : Option Token)
      → InRange 64 val
      → m.value ≡ o
      → resolve_member val k (written tok b (resolved val k m)).value ≡ resolve_member val k m.value
  unfolding written resolve_member
  resolve_member-written_option false val k m o h e = refl
  resolve_member-written_option true val k m (some t) h e = rw e refl
  resolve_member-written_option true val false m none h e = rw e refl
  resolve_member-written_option true val true m none h e =
      rw e (resolve_member-written val (next_value val) true (next_value-InRange val h))

  loop-filled :
      (picks : List Bool) (ms : List EnumValue) (val : ℤ) (k : Bool)
      → InRange 64 val
      → map outcome (values_loop val k (filled tok picks (values_loop val k ms)))
        ≡ map outcome (values_loop val k ms)
  unfolding filled values_loop
  loop-filled picks [] val k h = refl
  loop-filled [] (m ∷ ms) val k h =
      let r = resolve_member val k m.value in
      ap (◌∷◌ (r.0.0, r.0.1)) (loop-filled [] ms r.1 r.0.1 (resolve_member-InRange val k m.value h))
  loop-filled (b ∷ bs) (m ∷ ms) val k h =
      let r = resolve_member val k m.value in
      let tail = filled tok bs (values_loop r.1 r.0.1 ms) in
      ap (λ (x : (ℤ × Bool) × ℤ). (x.0.0, x.0.1) ∷ map outcome (values_loop x.1 x.0.1 tail))
        (resolve_member-written_option b val k m m.value h refl)
      ∙ ap (◌∷◌ (r.0.0, r.0.1))
          (loop-filled bs ms r.1 r.0.1 (resolve_member-InRange val k m.value h))

-- Where values are written out that members have by their position, whichever of them are picked, every
-- member keeps its value, and whether the value is known.
pub enum_member_values-filled :
    (tok : Bytes → Token)
    → ((s : Bytes) → (tok s).text ≡ s)
    → (picks : List Bool) (ms : List EnumValue)
    → map outcome (enum_member_values (filled tok picks (enum_member_values ms)))
      ≡ map outcome (enum_member_values ms)
unfolding enum_member_values
enum_member_values-filled tok tok-text picks ms =
    loop-filled tok tok-text picks ms (negsuc 0) true (omega arith)
