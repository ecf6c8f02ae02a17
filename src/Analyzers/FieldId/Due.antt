-- ===== src/Analyzers/FieldId/Due.antt =====
-- analyzers/fieldid_check.go: what is due to the token of an id, and what a map's order leaves as it is.
use thrift_ls.Analyzers.FieldId.Collected.{sharing, entries, error_by}
use thrift_ls.Analyzers.FieldId.Places.{
  Distinct, concat_map, at_place, hit, conflict-hit, Owned, find_at, find_at_alone,
}
use thrift_ls.Analyzers.FieldId.{
  range_diagnostic, conflict_diagnostic, field_ids, Groups, out_of_range,
}
use thrift_ls.Common.Int.{ℤ, pos, negsuc}
use thrift_ls.Common.Sort.{select}
use thrift_ls.Common.{
  within, false, ◌≡◌, refl, ◌∙◌, Bool, List, [], ◌∷◌, ◌++◌, none, some, ◌==◌, if◌then◌else◌, length,
  All, All-append, if_elim, arith, Bool-cases, inl, inr,
}
use thrift_ls.Sema.Diagnostic.{Diagnostic}
use thrift_ls.Strconv.{ParseResult, ok, syntax_error, range_error, parse_int}
use thrift_ls.Syntax.Token.{Token}
use thrift_ls.Syntax.Tree.{Field}

-- The same elements in some order.
pub data Reordered {ℓ} {A : Type ℓ} : List A → List A → Type ℓ where
  nil : Reordered [] []
  cons : (x : A) {xs ys : List A} → Reordered xs ys → Reordered (x ∷ xs) (x ∷ ys)
  swap : (x y : A) (xs : List A) → Reordered (x ∷ y ∷ xs) (y ∷ x ∷ xs)
  trans : {xs ys zs : List A} → Reordered xs ys → Reordered ys zs → Reordered xs zs

pub All-Reordered {ℓ κ} :
    {A : Type ℓ} (P : A → Type κ) {xs ys : List A} → Reordered xs ys → All P xs → All P ys
All-Reordered P nil all = tt
All-Reordered P (cons x r) (p, all) = (p, All-Reordered P r all)
All-Reordered P (swap x y xs) (p, (q, all)) = (q, (p, all))
All-Reordered P (trans r s) all = All-Reordered P s (All-Reordered P r all)

pub entries-Reordered : (v : ℤ) {gs hs : Groups} → Reordered gs hs → entries v gs ≡ entries v hs
unfolding entries
entries-Reordered v nil = refl
entries-Reordered v (cons x r) = let later = entries-Reordered v r in ground arith
entries-Reordered v (swap x y gs) = ground arith
entries-Reordered v (trans r s) = entries-Reordered v r ∙ entries-Reordered v s

-- An id that a field can have: a number from 1 to 32767.
unfoldable pub is_field_id : ℤ → Bool
is_field_id (pos n) = within 1 32767 n
is_field_id (negsuc n) = false

-- What is due to a token whose id is `v`: one diagnostic where no field can have the id, and one where it is
-- not the only token of its list with the id.
unfoldable pub due : List Token → ℤ → Token → List Diagnostic
unfolding is_field_id
due all v t =
    (if is_field_id v then [] else range_diagnostic t ∷ [])
    ++ (if length (sharing v all) == 1 then [] else conflict_diagnostic t ∷ [])

pub out_of_range-is_field_id :
    (v : ℤ) (ds : List Diagnostic)
    → (if out_of_range v then ds else []) ≡ (if is_field_id v then [] else ds)
unfolding out_of_range is_field_id
out_of_range-is_field_id (pos n) ds = ground arith
out_of_range-is_field_id (negsuc n) ds = refl

-- What is due to a token, by how its text is parsed: a number that does not fit 32 bits is out of range, and is not
-- compared with the others; a text that is no number, such as `08`, is passed over.
unfoldable pub expected_by : List Token → Token → ParseResult ℤ → List Diagnostic
unfolding due
expected_by all t (ok v) = due all v t
expected_by all t range_error = range_diagnostic t ∷ []
expected_by all t syntax_error = []

abbrev pub expected_of : List Token → Token → List Diagnostic
expected_of all t = expected_by all t (parse_int 32 t.text)

-- What is due to the tokens of the lists, in their order.
unfoldable pub expected_lists : List (List Field) → List Diagnostic
unfolding expected_by concat_map
expected_lists [] = []
expected_lists (fs ∷ fss) =
    concat_map (expected_of (field_ids fs)) (field_ids fs) ++ expected_lists fss

module _ (k : Diagnostic) where
  pub expected-Owned :
      (all : List Token) (t : Token) (r : ParseResult ℤ) → Owned k t (expected_by all t r)
  unfolding expected_by due
  expected-Owned all t (ok v) =
      All-append (λ d. at_place k d ≡ hit k t)
        (if is_field_id v then [] else range_diagnostic t ∷ []) _
        (if_elim (Owned k t) (is_field_id v) (λ _. tt) (λ _. (refl, tt)))
        (if_elim (Owned k t) (length (sharing v all) == 1) (λ _. tt) (λ _. (conflict-hit k t, tt)))
  expected-Owned all t range_error = (refl, tt)
  expected-Owned all t syntax_error = tt

  pub error-Owned : (t : Token) (r : ParseResult ℤ) → Owned k t (error_by t r)
  unfolding error_by
  error-Owned t (ok v) = tt
  error-Owned t range_error = (refl, tt)
  error-Owned t syntax_error = tt

  pub find_at-select :
      (p : Token → Bool) (ts : List Token)
      → Distinct ts
      → find_at k (select p ts)
        ≡ elim (find_at k ts) [ none ↦ none | some t ↦ if p t then some t else none ]
  unfolding find_at select
  find_at-select p [] d = refl
  find_at-select p (t ∷ ts) (others, d) =
      let later = find_at-select p ts d in
      elim (Bool-cases (hit k t)) [
        | inl h ↦ let alone = find_at_alone k t ts h others in ground arith
        | inr h ↦ ground arith
      ]

  All-select {κ} :
      (Q : Token → Type κ) (p : Token → Bool) (ts : List Token) → All Q ts → All Q (select p ts)
  unfolding select
  All-select Q p [] all = tt
  All-select Q p (t ∷ ts) (q, all) = elim (Bool-cases (p t)) [
    | inl h ↦ rw h (q, All-select Q p ts all)
    | inr h ↦ rw h (All-select Q p ts all)
  ]

  pub Distinct-select : (p : Token → Bool) (ts : List Token) → Distinct ts → Distinct (select p ts)
  unfolding select
  Distinct-select p [] d = tt
  Distinct-select p (t ∷ ts) (others, d) = elim (Bool-cases (p t)) [
    | inl h ↦ rw h (All-select _ p ts others, Distinct-select p ts d)
    | inr h ↦ rw h (Distinct-select p ts d)
  ]
