-- ===== src/Analyzers/EnumValue/Fixed.antt =====
-- analyzers/enum_value_check.go: what its fixes do to an enum.
use thrift_ls.Analyzers.EnumValue.Edits.{Apart, edits_of, reported, write_edits, write_edits-filled}
use thrift_ls.Analyzers.EnumValue.{
  first_index, is_reported, implicit_value, check_values, check_enum,
}
use thrift_ls.Common.Int.{ℤ, negsuc}
use thrift_ls.Common.{
  ℕ, ◌+◌, ◌≡◌, refl, sym, ap, subst, ◌∙◌, Bool, true, false, List, [], ◌∷◌, none, some, Bytes, map,
  All, arith, if_elim, Returns, returns,
}
use thrift_ls.Mapper.{Position}
use thrift_ls.Sema.Diagnostic.{Span, Diagnostic}
use thrift_ls.Sema.Enum.Filled.{
  written, filled, outcome, resolve_member-InRange, resolve_member-written_option,
  enum_member_values-filled,
}
use thrift_ls.Sema.Enum.{
  EnumMemberValue, resolve_member, values_loop, enum_member_values, is_implicit,
}
use thrift_ls.Store.Index.{lookup}
use thrift_ls.Strconv.RoundTrip.{InRange}
use thrift_ls.Syntax.Token.{Token}
use thrift_ls.Syntax.Tree.{NodeBase, Identifier, EnumValue}

written-name :
    (tok : Bytes → Token) (b : Bool) (mv : EnumMemberValue)
    → (written tok b mv).name ≡ mv.member.name
unfolding written
written-name tok b mv = ground arith

filled-names :
    (tok : Bytes → Token) (picks : List Bool) (val : ℤ) (k : Bool) (ms : List EnumValue)
    → map (λ (m : EnumValue). m.name) (filled tok picks (values_loop val k ms))
      ≡ map (λ (m : EnumValue). m.name) ms
unfolding filled values_loop
filled-names tok picks val k [] = refl
filled-names tok [] val k (m ∷ ms) =
    let r = resolve_member val k m.value in ap (◌∷◌ m.name) (filled-names tok [] r.1 r.0.1 ms)
filled-names tok (b ∷ bs) val k (m ∷ ms) =
    let r = resolve_member val k m.value in
    rw (written-name tok b (record { member = m; value = r.0.0; known = r.0.1 }))
      (ap (◌∷◌ m.name) (filled-names tok bs r.1 r.0.1 ms))

-- The first members of each name depend on the names alone.
first_index-names :
    (i : ℕ) (ms ns : List EnumValue) (seen : List (Bytes × ℕ))
    → map (λ (m : EnumValue). m.name) ms ≡ map (λ (m : EnumValue). m.name) ns
    → first_index i ms seen ≡ first_index i ns seen
unfolding first_index
first_index-names i [] [] seen e = refl
first_index-names i [] (n ∷ ns) seen e = absurd (cc)
first_index-names i (m ∷ ms) [] seen e = absurd (cc)
first_index-names i (m ∷ ms) (n ∷ ns) seen e =
    let h : m.name ≡ n.name = cc in
    let t : map (λ (m : EnumValue). m.name) ms ≡ map (λ (m : EnumValue). m.name) ns = cc in
    let step : Identifier → List EnumValue → List (Bytes × ℕ) = λ name xs.
      elim (lookup name.text seen) [
        | some j ↦ first_index (i + 1) xs seen
        | none ↦ first_index (i + 1) xs ((name.text, i) ∷ seen)
      ] in
    ap (λ name. step name ms) h
    ∙ elim (lookup n.name.text seen)
        as (λ o.
          ◌≡◌ {A = List (Bytes × ℕ)}
            (elim o [
              | some j ↦ first_index (i + 1) ms seen
              | none ↦ first_index (i + 1) ms ((n.name.text, i) ∷ seen)
            ])
            (elim o [
              | some j ↦ first_index (i + 1) ns seen
              | none ↦ first_index (i + 1) ns ((n.name.text, i) ∷ seen)
            ])) [
              | some j ↦ first_index-names (i + 1) ms ns seen t
              | none ↦ first_index-names (i + 1) ms ns ((n.name.text, i) ∷ seen) t
            ]

-- A member that is reported after the fixes has no known value.
reported-unknown :
    (tok : Bytes → Token) (firsts : List (Bytes × ℕ)) (i : ℕ) (mv : EnumMemberValue)
    → is_reported firsts i (record mv { member = written tok (is_reported firsts i mv) mv }) ≡ true
    → mv.known ≡ false
unfolding is_reported written is_implicit
reported-unknown tok firsts i mv h = ground arith

module _ (span : NodeBase → Span) (behind : NodeBase → Position) (tok : Bytes → Token)
    (tok-text : (s : Bytes) → (tok s).text ≡ s) where
  abbrev HasNoFix : Diagnostic → Type 0
  HasNoFix d = d.fixes ≡ []

  no_fix : (mv : EnumMemberValue) → mv.known ≡ false → HasNoFix (implicit_value span behind mv)
  unfolding implicit_value
  no_fix mv h = rw h refl

  check_values-filled :
      (firsts : List (Bytes × ℕ)) (i : ℕ) (val : ℤ) (k : Bool) (ms : List EnumValue)
      → InRange 64 val
      → All HasNoFix (
          check_values span behind firsts i (
            values_loop val k
              (filled tok (reported firsts i (values_loop val k ms)) (values_loop val k ms))))
  unfolding check_values values_loop filled reported
  check_values-filled firsts i val k [] h = tt
  check_values-filled firsts i val k (m ∷ ms) h =
      let r = resolve_member val k m.value in
      let mv : EnumMemberValue = record { member = m; value = r.0.0; known = r.0.1 } in
      let w = written tok (is_reported firsts i mv) mv in
      let rest =
        filled tok (reported firsts (i + 1) (values_loop r.1 r.0.1 ms))
          (values_loop r.1 r.0.1 ms) in
      let later =
        check_values-filled firsts (i + 1) r.1 r.0.1 ms (resolve_member-InRange val k m.value h) in
      subst
        (λ (x : (ℤ × Bool) × ℤ). All HasNoFix (
          check_values span behind firsts i
            (record { member = w; value = x.0.0; known = x.0.1 } ∷ values_loop x.1 x.0.1 rest)))
        (sym (
          resolve_member-written_option tok tok-text (is_reported firsts i mv) val k m m.value h
            refl))
        (if_elim (All HasNoFix) (is_reported firsts i (record mv { member = w }))
          (λ yes_reported. (
            no_fix (record mv { member = w }) (reported-unknown tok firsts i mv yes_reported),
            later,
          ))
          (λ _. later))

members-values_loop :
    (val : ℤ) (k : Bool) (ms : List EnumValue)
    → map (λ (mv : EnumMemberValue). mv.member) (values_loop val k ms) ≡ ms
unfolding values_loop
members-values_loop val k [] = refl
members-values_loop val k (m ∷ ms) =
    let r = resolve_member val k m.value in ap (◌∷◌ m) (members-values_loop r.1 r.0.1 ms)

-- What the edits of the check make of the members.
check_enum-edits :
    (span : NodeBase → Span) (behind : NodeBase → Position) (tok : Bytes → Token)
    (ms : List EnumValue)
    → Apart behind ms
    → write_edits behind tok (edits_of (check_enum span behind ms)) ms
      ≡ some (
          filled tok
            (reported (first_index 0 ms []) 0 (enum_member_values ms))
            (enum_member_values ms))
unfolding check_enum enum_member_values
check_enum-edits span behind tok ms apart =
    let firsts = first_index 0 ms [] in
    let mvs = values_loop (negsuc 0) true ms in
    let es = edits_of (check_values span behind firsts 0 mvs) in
    let members = members-values_loop (negsuc 0) true ms in
    subst (λ ns. write_edits behind tok es ns ≡ some (filled tok (reported firsts 0 mvs) mvs))
      members
      (write_edits-filled behind tok span firsts 0 mvs (subst (Apart behind) (sym members) apart))

-- Where the names of an enum's members end at different offsets and `tok` gives the token of a text: each edit of the
-- check's fixes inserts, behind the name of a member without a value, ` = ` and the text of a value. In the enum that
-- results every member has the value it had, and whether it is known is the same too, and the check of it has no further fix.
pub check_enum-fixed :
    (span : NodeBase → Span) (behind : NodeBase → Position) (tok : Bytes → Token)
    (ms : List EnumValue)
    → ((s : Bytes) → (tok s).text ≡ s)
    → Apart behind ms
    → Returns
        (λ fixed.
          (map outcome (enum_member_values fixed) ≡ map outcome (enum_member_values ms))
          × All (λ d. d.fixes ≡ []) (check_enum span behind fixed))
        (write_edits behind tok (edits_of (check_enum span behind ms)) ms)
unfolding check_enum enum_member_values
check_enum-fixed span behind tok ms tok-text apart =
    let firsts = first_index 0 ms [] in
    let mvs = values_loop (negsuc 0) true ms in
    let picks = reported firsts 0 mvs in
    let no_more : All (λ (d : Diagnostic). d.fixes ≡ [])
        (check_values span behind (first_index 0 (filled tok picks mvs) []) 0
          (values_loop (negsuc 0) true (filled tok picks mvs))) =
      rw
        (first_index-names 0 (filled tok picks mvs) ms []
          (filled-names tok picks (negsuc 0) true ms))
        (check_values-filled span behind tok tok-text firsts 0 (negsuc 0) true ms (omega arith)) in
    subst (Returns _) (sym (check_enum-edits span behind tok ms apart))
      (returns (enum_member_values-filled tok tok-text picks ms, no_more))
