-- ===== src/Analyzers/FieldId/Collected.antt =====
-- analyzers/fieldid_check.go: what the first loop collects. Every id has one group, of the tokens that give
-- it, in their order; an id out of the range of 32 bits is reported at once.
use thrift_ls.Analyzers.FieldId.{Groups, add_field, read_id, collect, range_diagnostic}
use thrift_ls.Analyzers.FieldId.Places.{concat_map}
use thrift_ls.Common.Int.{ℤ, int_eq, int_eq_refl, int_eq→≡, int_eq_sym}
use thrift_ls.Common.Sort.{select, select-append}
use thrift_ls.Common.{
  ℕ, suc, ◌≡◌, refl, sym, ap, subst, ◌∙◌, ◌⊎◌, Bool, false, List, [], ◌∷◌, ◌++◌, ◌==◌,
  if◌then◌else◌, All, All-map, arith, Bool-cases, inl, inr, append-nil, append_assoc,
}
use thrift_ls.Sema.Diagnostic.{Diagnostic}
use thrift_ls.Strconv.{ParseResult, ok, syntax_error, range_error, parse_int}
use thrift_ls.Syntax.Token.{Token}

-- The text was parsed as the id.
unfoldable pub is_id : ℤ → ParseResult ℤ → Bool
unfolding int_eq
is_id v (ok w) = int_eq v w
is_id v syntax_error = false
is_id v range_error = false

abbrev pub has_id : ℤ → Token → Bool
has_id v t = is_id v (parse_int 32 t.text)

-- The tokens that give the id.
abbrev pub sharing : ℤ → List Token → List Token
sharing v ts = select (has_id v) ts

-- How many groups there are for the id.
unfoldable pub entries : ℤ → Groups → ℕ
unfolding int_eq
entries v [] = 0
entries v ((w, ts) ∷ gs) = if int_eq v w then suc (entries v gs) else entries v gs

abbrev pub Closed : List Token → Groups → Type 0
Closed done gs = All (λ (g : ℤ × List Token). g.1 ≡ sharing g.0 done) gs

abbrev pub Counted : ℤ → List Token → Groups → Type 0
Counted v done gs = (entries v gs ≡ 1) ⊎ ((entries v gs ≡ 0) × (sharing v done ≡ []))

-- A further token joins the group of its id and no other.
sharing-snoc :
    (w : ℤ) (done : List Token) (t : Token)
    → sharing w (done ++ t ∷ []) ≡ (if has_id w t then sharing w done ++ t ∷ [] else sharing w done)
unfolding select
sharing-snoc w done t =
    select-append (has_id w) done (t ∷ [])
    ∙ elim (Bool-cases (has_id w t)) [ inl h ↦ rw h refl | inr h ↦ rw h (append-nil _) ]

-- Where no group is for the new id, the groups stay as they are.
Closed-other :
    (v : ℤ) (done : List Token) (t : Token) (gs : Groups)
    → ((w : ℤ) → has_id w t ≡ int_eq w v)
    → entries v gs ≡ 0
    → Closed done gs
    → Closed (done ++ t ∷ []) gs
unfolding entries
Closed-other v done t [] own z c = tt
Closed-other v done t ((w, ts) ∷ gs) own z (c, cs) = elim (Bool-cases (int_eq v w)) [
  | inl h ↦ absurd (ground arith)
  | inr h ↦ (
    c ∙ sym (sharing-snoc w done t ∙ rw (own w ∙ (int_eq_sym w v ∙ h)) refl),
    Closed-other v done t gs own (rw h at z) cs,
  )
]

Closed-add_field :
    (v : ℤ) (done : List Token) (t : Token) (gs : Groups)
    → ((w : ℤ) → has_id w t ≡ int_eq w v)
    → Counted v done gs
    → Closed done gs
    → Closed (done ++ t ∷ []) (add_field v t gs)
unfolding add_field entries
Closed-add_field v done t [] own (inl one) c = absurd (omega arith)
Closed-add_field v done t [] own (inr (z, e)) c =
    (sym (sharing-snoc v done t ∙ rw (own v ∙ int_eq_refl v) (rw e refl)), tt)
Closed-add_field v done t ((w, ts) ∷ gs) own n (c, cs) = elim (Bool-cases (int_eq v w)) [
  | inl h ↦ rw h (
    ap (λ x. x ++ t ∷ []) c ∙ sym (sharing-snoc w done t ∙ rw (own w ∙ (int_eq_sym w v ∙ h)) refl),
    Closed-other v done t gs own
        (elim n [ inl one ↦ ground arith | inr (z, e) ↦ absurd (ground arith) ]) cs,
  )
  | inr h ↦ rw h (
    c ∙ sym (sharing-snoc w done t ∙ rw (own w ∙ (int_eq_sym w v ∙ h)) refl),
    Closed-add_field v done t gs own (rw h at n) cs,
  )
]

entries-add_field :
    (v u : ℤ) (t : Token) (gs : Groups)
    → entries u (add_field v t gs)
      ≡ (if int_eq u v then (if entries v gs == 0 then 1 else entries v gs) else entries u gs)
unfolding entries add_field
entries-add_field v u t [] = ground arith
entries-add_field v u t ((w, ts) ∷ gs) =
    let later = entries-add_field v u t gs in
    ground (
      arith,
      later,
      int_eq→≡ v w,
      int_eq→≡ u v,
      int_eq→≡ u w,
      int_eq_refl u,
      int_eq_sym u v,
      int_eq_sym u w,
    )

-- The groups after some tokens: as they should be, and one for each id.
pub record Grouped (done : List Token) (gs : Groups) : Type 0 where
  pub closed : Closed done gs
  pub counted : (u : ℤ) → Counted u done gs

Counted-add_field :
    (v u : ℤ) (done : List Token) (t : Token) (gs : Groups)
    → ((w : ℤ) → has_id w t ≡ int_eq w v)
    → Counted v done gs
    → Counted u done gs
    → Counted u (done ++ t ∷ []) (add_field v t gs)
Counted-add_field v u done t gs own nv nu =
    let count = entries-add_field v u t gs in
    elim (Bool-cases (int_eq u v)) [
      | inl h ↦ inl (elim nv [ inl one ↦ ground arith | inr (z, e) ↦ ground arith ])
      | inr h ↦
          let kept : sharing u (done ++ t ∷ []) ≡ sharing u done =
            sharing-snoc u done t ∙ rw (own u ∙ h) refl in
          elim nu [ inl one ↦ inl (ground arith) | inr (z, e) ↦ inr (ground arith, kept ∙ e) ]
    ]

-- A token that gives no id changes no group.
Grouped-skip :
    (done : List Token) (t : Token) (gs : Groups)
    → ((w : ℤ) → has_id w t ≡ false)
    → Grouped done gs
    → Grouped (done ++ t ∷ []) gs
Grouped-skip done t gs none_given g =
    let kept : (w : ℤ) → sharing w (done ++ t ∷ []) ≡ sharing w done =
      λ w. sharing-snoc w done t ∙ rw (none_given w) refl in
    record {
      closed = All-map _ _ gs (λ (h : ℤ × List Token) e. e ∙ sym (kept h.0)) g.closed;
      counted = λ u. elim (g.counted u) [ inl one ↦ inl one | inr (z, e) ↦ inr (z, kept u ∙ e) ];
    }

read_id-Grouped :
    (done : List Token) (t : Token) (r : ParseResult ℤ) (errs : List Diagnostic) (gs : Groups)
    → parse_int 32 t.text ≡ r
    → Grouped done gs
    → Grouped (done ++ t ∷ []) (read_id t r errs gs).1
unfolding read_id is_id
read_id-Grouped done t (ok v) errs gs e g =
    let own : (w : ℤ) → has_id w t ≡ int_eq w v = λ w. rw e refl in
    record {
      closed = Closed-add_field v done t gs own (g.counted v) g.closed;
      counted = λ u. Counted-add_field v u done t gs own (g.counted v) (g.counted u);
    }
read_id-Grouped done t syntax_error errs gs e g = Grouped-skip done t gs (λ w. rw e refl) g
read_id-Grouped done t range_error errs gs e g = Grouped-skip done t gs (λ w. rw e refl) g

collect-Grouped_from :
    (done ts : List Token) (errs : List Diagnostic) (gs : Groups)
    → Grouped done gs
    → Grouped (done ++ ts) (collect ts errs gs).1
unfolding collect
collect-Grouped_from done [] errs gs g = rw (append-nil done) g
collect-Grouped_from done (t ∷ ts) errs gs g =
    let r = parse_int 32 t.text in
    let step = read_id t r errs gs in
    subst (λ d. Grouped d (collect ts step.0 step.1).1) (append_assoc done (t ∷ []) ts)
      (collect-Grouped_from (done ++ t ∷ []) ts step.0 step.1
        (read_id-Grouped done t r errs gs refl g))

pub collect-Grouped : (ts : List Token) → Grouped ts (collect ts [] []).1
unfolding entries select
collect-Grouped ts =
    collect-Grouped_from [] ts [] [] (record { closed = tt; counted = λ u. inr (refl, refl) })

-- What is reported at once.
unfoldable pub error_by : Token → ParseResult ℤ → List Diagnostic
error_by t range_error = range_diagnostic t ∷ []
error_by t (ok v) = []
error_by t syntax_error = []

abbrev pub error_of : Token → List Diagnostic
error_of t = error_by t (parse_int 32 t.text)

read_id-errs :
    (t : Token) (r : ParseResult ℤ) (errs : List Diagnostic) (gs : Groups)
    → (read_id t r errs gs).0 ≡ errs ++ error_by t r
unfolding read_id error_by
read_id-errs t (ok v) errs gs = sym (append-nil errs)
read_id-errs t syntax_error errs gs = sym (append-nil errs)
read_id-errs t range_error errs gs = refl

pub collect-errs :
    (ts : List Token) (errs : List Diagnostic) (gs : Groups)
    → (collect ts errs gs).0 ≡ errs ++ concat_map error_of ts
unfolding collect concat_map
collect-errs [] errs gs = sym (append-nil errs)
collect-errs (t ∷ ts) errs gs =
    let step = read_id t (parse_int 32 t.text) errs gs in
    collect-errs ts step.0 step.1
    ∙ (ap (λ x. x ++ concat_map error_of ts) (read_id-errs t (parse_int 32 t.text) errs gs)
        ∙ append_assoc errs (error_of t) (concat_map error_of ts))
