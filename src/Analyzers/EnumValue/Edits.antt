-- ===== src/Analyzers/EnumValue/Edits.antt =====
-- analyzers/enum_value_check.go: what the edits of its diagnostics do to the members of an enum.
use thrift_ls.Analyzers.EnumValue.{value_fix, implicit_value, is_reported, check_values}
use thrift_ls.Common.Int.{pos, int_eq, int_eq_refl}
use thrift_ls.Common.{
  ℕ, ◌+◌, ◌≡◌, refl, ap, ◌∙◌, Bool, true, false, ◌&&◌, ◌==◌, if◌then◌else◌, List, [], ◌∷◌, ◌++◌,
  Option, none, some, ◌>>=◌, Bytes, codes, map, All, arith, if_elim, Bool-cases, inl, inr,
}
use thrift_ls.Mapper.{Position}
use thrift_ls.Sema.Diagnostic.{Span, Diagnostic}
use thrift_ls.Sema.Edit.{Edit, Fix}
use thrift_ls.Sema.Enum.Filled.{explicit, written, filled}
use thrift_ls.Sema.Enum.{EnumMemberValue, is_implicit}
use thrift_ls.Strconv.{format_int}
use thrift_ls.Syntax.Token.{Token}
use thrift_ls.Syntax.Tree.{NodeBase, EnumValue}

fix_edits : List Fix → List Edit
fix_edits [] = []
fix_edits (f ∷ fs) = f.edits ++ fix_edits fs

-- The edits of all fixes.
unfoldable pub edits_of : List Diagnostic → List Edit
unfolding fix_edits
edits_of [] = []
edits_of (d ∷ ds) = fix_edits d.fixes ++ edits_of ds

-- The text behind ` = `.
after_equals : Bytes → Option Bytes
after_equals (a ∷ b ∷ c ∷ t) = if a == b' ' && (b == b'=' && c == b' ') then some t else none
after_equals _ = none

-- Which members are reported.
unfoldable pub reported : List (Bytes × ℕ) → ℕ → List EnumMemberValue → List Bool
reported firsts i [] = []
reported firsts i (mv ∷ mvs) = is_reported firsts i mv ∷ reported firsts (i + 1) mvs

module _ (behind : NodeBase → Position) where
  abbrev OtherPlace : EnumValue → EnumValue → Type 0
  OtherPlace m n = ((behind n.name.base).offset == (behind m.name.base).offset) ≡ false

  -- The names of the members end at different offsets.
  unfoldable pub Apart : List EnumValue → Type 0
  Apart [] = Unit
  Apart (m ∷ ms) = All (OtherPlace m) ms × Apart ms

module _ (behind : NodeBase → Position) (tok : Bytes → Token) where
  -- A text that is inserted behind the name of a member without a value gives it one if it is ` = ` and the
  -- text of the value. Anything else leaves no enum that is known here.
  give_value : Bytes → EnumValue → Option EnumValue
  unfolding after_equals
  give_value text m = elim m.value [
    | none ↦ after_equals text >>= λ t. some (record m { value = some (tok t) })
    | some _ ↦ none
  ]

  -- An edit is an insertion behind the name of a member.
  write_edit : Edit → List EnumValue → Option (List EnumValue)
  unfolding give_value int_eq
  write_edit e [] = none
  write_edit e (m ∷ ms) =
      let later = write_edit e ms in
      let at_name = pos (behind m.name.base).offset in
      if int_eq e.start at_name && int_eq e.end at_name
      then (give_value e.new_text m >>= λ w. some (w ∷ ms))
      else (later >>= λ ws. some (m ∷ ws))

  -- The members of an enum after edits of its text.
  unfoldable pub write_edits : List Edit → List EnumValue → Option (List EnumValue)
  unfolding write_edit
  write_edits [] ms = some ms
  write_edits (e ∷ es) ms = write_edit e ms >>= write_edits es

  abbrev Elsewhere : EnumValue → Edit → Type 0
  Elsewhere m e = int_eq e.start (pos (behind m.name.base).offset) ≡ false

  write_edits-pass :
      (m : EnumValue) (es : List Edit) (ms : List EnumValue)
      → All (Elsewhere m) es
      → write_edits es (m ∷ ms) ≡ (write_edits es ms >>= λ ws. some (m ∷ ws))
  unfolding write_edits write_edit
  write_edits-pass m [] ms all = refl
  write_edits-pass m (e ∷ es) ms (h, all) =
      rw h
        (elim (write_edit e ms)
          as (λ o.
            ◌≡◌ {A = Option (List EnumValue)} ((o >>= λ ws. some (m ∷ ws)) >>= write_edits es)
              ((o >>= write_edits es) >>= λ ws. some (m ∷ ws))) [
                | none ↦ refl
                | some ws ↦ write_edits-pass m es ws all
              ])

  abbrev value_edit : EnumMemberValue → Edit
  value_edit mv = record {
    start = pos (behind mv.member.name.base).offset;
    end = pos (behind mv.member.name.base).offset;
    new_text = codes " = " ++ format_int mv.value;
  }

  give_value-explicit :
      (mv : EnumMemberValue) (o : Option Token)
      → mv.member.value ≡ o
      → is_implicit mv ≡ true
      → give_value (codes " = " ++ format_int mv.value) mv.member ≡ some (explicit tok mv)
  unfolding give_value is_implicit after_equals
  give_value-explicit mv none e h = rw e refl
  give_value-explicit mv (some t) e h = absurd (ground arith)

  -- The edit of a member without a value.
  write_edit-value :
      (mv : EnumMemberValue) (ms : List EnumValue)
      → is_implicit mv ≡ true
      → write_edit (value_edit mv) (mv.member ∷ ms) ≡ some (explicit tok mv ∷ ms)
  unfolding write_edit
  write_edit-value mv ms h =
      let at_name = pos (behind mv.member.name.base).offset in
      rw (int_eq_refl at_name, give_value-explicit mv mv.member.value refl h) refl

  module _ (span : NodeBase → Span) (firsts : List (Bytes × ℕ)) where
    edits-Elsewhere :
        (m : EnumValue) (i : ℕ) (mvs : List EnumMemberValue)
        → All (OtherPlace behind m) (map (λ (mv : EnumMemberValue). mv.member) mvs)
        → All (Elsewhere m) (edits_of (check_values span behind firsts i mvs))
    unfolding edits_of check_values implicit_value value_fix fix_edits int_eq
    edits-Elsewhere m i [] all = tt
    edits-Elsewhere m i (mv ∷ mvs) (h, all) =
        let later = edits-Elsewhere m (i + 1) mvs all in
        if_elim (λ ds. All (Elsewhere m) (edits_of ds)) (is_reported firsts i mv)
          (λ _.
            if_elim
              (λ fs.
                All (Elsewhere m)
                  (fix_edits fs ++ edits_of (check_values span behind firsts (i + 1) mvs)))
              mv.known {x = value_fix span behind mv ∷ []} {y = []} (λ _. (h, later)) (λ _. later))
          (λ _. later)

    is_reported-implicit :
        (i : ℕ) (mv : EnumMemberValue) → is_reported firsts i mv ≡ true → is_implicit mv ≡ true
    unfolding is_reported
    is_reported-implicit i mv h = ground arith

    -- The edits write out the values of the members that are reported and known.
    pub write_edits-filled :
        (i : ℕ) (mvs : List EnumMemberValue)
        → Apart behind (map (λ (mv : EnumMemberValue). mv.member) mvs)
        → write_edits
            (edits_of (check_values span behind firsts i mvs))
            (map (λ (mv : EnumMemberValue). mv.member) mvs)
          ≡ some (filled tok (reported firsts i mvs) mvs)
    unfolding edits_of check_values implicit_value value_fix fix_edits filled reported write_edits
        Apart written
    write_edits-filled i [] d = refl
    write_edits-filled i (mv ∷ mvs) (others, d) =
        let rest = edits_of (check_values span behind firsts (i + 1) mvs) in
        let members = map (λ (x : EnumMemberValue). x.member) mvs in
        let later = write_edits-filled (i + 1) mvs d in
        let elsewhere = edits-Elsewhere mv.member (i + 1) mvs others in
        let pass : (w : EnumValue)
            → All (Elsewhere w) rest
            → write_edits rest (w ∷ members)
              ≡ some (w ∷ filled tok (reported firsts (i + 1) mvs) mvs) =
          λ w all.
            write_edits-pass w rest members all ∙ ap (λ o. o >>= λ ws. some (w ∷ ws)) later in
        elim (Bool-cases (is_reported firsts i mv)) [
          | inl r ↦ elim (Bool-cases mv.known) [
            | inl k ↦
                rw (r, k, is_reported-implicit i mv r)
                  (ap (λ o. o >>= write_edits rest)
                      (write_edit-value mv members (is_reported-implicit i mv r))
                    ∙ pass (explicit tok mv) elsewhere)
            | inr k ↦ rw (r, k, is_reported-implicit i mv r) (pass mv.member elsewhere)
          ]
          | inr r ↦ rw r (pass mv.member elsewhere)
        ]
