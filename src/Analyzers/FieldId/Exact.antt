-- ===== src/Analyzers/FieldId/Exact.antt =====
-- analyzers/fieldid_check.go: what is reported, whichever order the loop over the map takes.
use thrift_ls.Analyzers.FieldId.Collected.{
  is_id, has_id, sharing, entries, Closed, Grouped, collect-Grouped, error_by, error_of,
  collect-errs,
}
use thrift_ls.Analyzers.FieldId.Places.{
  Distinct, concat_map, map-concat_map, not_after-total, not_after_trans, at_place, hit,
  conflict-hit, find_at, given, select-concat_map,
}
use thrift_ls.Analyzers.FieldId.{
  range_diagnostic, conflict_diagnostic, field_ids, Groups, collect, out_of_range,
  group_diagnostics, groups_diagnostics, not_after, check_ids, check_field_lists, check_field_ids,
}
use thrift_ls.Common.Int.{ℤ, int_eq, int_eq→≡, int_eq_refl, int_eq_sym}
use thrift_ls.Common.Sort.{select, select-append, stable_sort, stable_sort-eq}
use thrift_ls.Common.{
  ℕ, zero, suc, ◌≡◌, refl, sym, ap, ◌∙◌, Bool, true, false, List, [], ◌∷◌, ◌++◌, Option, none, some,
  ◌==◌, if◌then◌else◌, map, length, All, Bool-cases, Option-cases, inl, inr, append-nil,
}
use thrift_ls.Sema.Diagnostic.{Diagnostic}
use thrift_ls.Strconv.{ParseResult, ok, syntax_error, range_error, parse_int}
use thrift_ls.Syntax.Accessors.{field_lists}
use thrift_ls.Syntax.Token.{Token}
use thrift_ls.Syntax.Tree.{Field, Node}
use thrift_ls.Analyzers.FieldId.Due.{
  is_field_id, out_of_range-is_field_id, Reordered, All-Reordered, entries-Reordered, due,
  expected_by, expected_of, expected_lists, expected-Owned, error-Owned, find_at-select,
  Distinct-select,
}

module _ (k : Diagnostic) where
  select-map :
      (f : Token → Diagnostic) (ts : List Token)
      → ((t : Token) → at_place k (f t) ≡ hit k t)
      → Distinct ts
      → select (at_place k) (map f ts) ≡ given (λ t. f t ∷ []) (find_at k ts)
  select-map f ts own d =
      ap (select (at_place k)) (map-concat_map f ts)
      ∙ select-concat_map k (λ t. f t ∷ []) ts (λ t. (own t, tt)) d

  given_nil : (o : Option Token) → given (λ t. []) o ≡ []
  given_nil none = refl
  given_nil (some t) = refl

  given-append :
      (f g : Token → List Diagnostic) (o : Option Token)
      → given (λ t. f t ++ g t) o ≡ given f o ++ given g o
  given-append f g none = refl
  given-append f g (some t) = refl

  -- One kind of diagnostic for all tokens or none.
  select-map_if :
      (b : Bool) (f : Token → Diagnostic) (ts : List Token)
      → ((t : Token) → at_place k (f t) ≡ hit k t)
      → Distinct ts
      → (select (at_place k) (if b then map f ts else [])
          ≡ given (λ t. if b then f t ∷ [] else []) (find_at k ts))
        × (select (at_place k) (if b then [] else map f ts)
            ≡ given (λ t. if b then [] else f t ∷ []) (find_at k ts))
  unfolding select
  select-map_if true f ts own d = (select-map f ts own d, sym (given_nil (find_at k ts)))
  select-map_if false f ts own d = (sym (given_nil (find_at k ts)), select-map f ts own d)

  -- The diagnostics of a group at a place are those that are due to the token there.
  select-group_diagnostics :
      (all : List Token) (v : ℤ)
      → Distinct (sharing v all)
      → select (at_place k) (group_diagnostics (v, sharing v all))
        ≡ given (due all v) (find_at k (sharing v all))
  unfolding group_diagnostics due
  select-group_diagnostics all v d =
      let ts = sharing v all in
      let ranges = (select-map_if (is_field_id v) range_diagnostic ts (λ t. refl) d).1 in
      let conflicts =
        (select-map_if (length ts == 1) conflict_diagnostic ts (conflict-hit k) d).1 in
      select-append (at_place k) (if out_of_range v then map range_diagnostic ts else [])
        (if length ts == 1 then [] else map conflict_diagnostic ts)
      ∙ (rw (out_of_range-is_field_id v (map range_diagnostic ts)) (rw ranges (rw conflicts refl))
          ∙ sym (
              given-append (λ t. if is_field_id v then [] else range_diagnostic t ∷ [])
                (λ t. if length ts == 1 then [] else conflict_diagnostic t ∷ []) (find_at k ts)))

  times : ℕ → List Diagnostic → List Diagnostic
  times zero xs = []
  times (suc n) xs = xs ++ times n xs

  -- Where no id has a token at the place, no group has a diagnostic there.
  groups-nothing :
      (all : List Token) (gs : Groups)
      → Distinct all
      → Closed all gs
      → ((v : ℤ) → find_at k (sharing v all) ≡ none)
      → select (at_place k) (groups_diagnostics gs) ≡ []
  unfolding groups_diagnostics select
  groups-nothing all [] d c missed = refl
  groups-nothing all ((v, ts) ∷ gs) d (c, cs) missed =
      select-append (at_place k) (group_diagnostics (v, ts)) (groups_diagnostics gs)
      ∙ rw c (
          rw (select-group_diagnostics all v (Distinct-select k (has_id v) all d))
            (rw (missed v) (groups-nothing all gs d cs missed)))

  -- Where the token at the place has the id `u`, the group of `u` has its diagnostics, and no other group has any.
  groups-due :
      (all : List Token) (gs : Groups) (t : Token) (u : ℤ)
      → Distinct all
      → Closed all gs
      → find_at k all ≡ some t
      → ((v : ℤ) → has_id v t ≡ int_eq v u)
      → select (at_place k) (groups_diagnostics gs) ≡ times (entries u gs) (due all u t)
  unfolding groups_diagnostics select entries times
  groups-due all [] t u d c found own = refl
  groups-due all ((v, ts) ∷ gs) t u d (c, cs) found own =
      let later = groups-due all gs t u d cs found own in
      let there : find_at k (sharing v all) ≡ (if int_eq v u then some t else none) =
        find_at-select k (has_id v) all d ∙ rw found (rw (own v) refl) in
      select-append (at_place k) (group_diagnostics (v, ts)) (groups_diagnostics gs)
      ∙ rw c (
          rw (select-group_diagnostics all v (Distinct-select k (has_id v) all d)) (
            rw there (elim (Bool-cases (int_eq v u)) [
              | inl e ↦ rw e (
                  rw (int_eq_sym u v ∙ e) (
                    rw later (
                      ap (λ w. due all w t ++ times (entries u gs) (due all u t))
                        (int_eq→≡ v u e))))
              | inr e ↦ rw e (rw (int_eq_sym u v ∙ e) later)
            ])))

  not_found : (ts : List Token) (t : Token) → ts ≡ [] → find_at k ts ≡ some t → ⊥
  unfolding find_at
  not_found [] t e found = cc
  not_found (u ∷ ts) t e found = cc

  -- What the groups, in any order, have at the place of a token.
  groups-token :
      (all : List Token) (gs hs : Groups) (t : Token) (r : ParseResult ℤ)
      → Distinct all
      → Grouped all gs
      → Reordered gs hs
      → find_at k all ≡ some t
      → parse_int 32 t.text ≡ r
      → error_by t r ++ select (at_place k) (groups_diagnostics hs) ≡ expected_by all t r
  unfolding error_by expected_by is_id times
  groups-token all gs hs t (ok u) d g o found e =
      let own : (v : ℤ) → has_id v t ≡ int_eq v u = λ v. rw e refl in
      let one : entries u gs ≡ 1 = elim (g.counted u) [
        | inl n ↦ n
        | inr (z, empty) ↦ absurd (
            not_found (sharing u all) t empty
              (find_at-select k (has_id u) all d ∙ rw found (rw (own u ∙ int_eq_refl u) refl)))
      ] in
      rw (groups-due all hs t u d (All-Reordered _ o g.closed) found own)
        (rw (sym (entries-Reordered u o) ∙ one) (append-nil (due all u t)))
  groups-token all gs hs t syntax_error d g o found e =
      groups-nothing all hs d (All-Reordered _ o g.closed)
        (λ v. find_at-select k (has_id v) all d ∙ rw found (rw e refl))
  groups-token all gs hs t range_error d g o found e =
      rw
        (groups-nothing all hs d (All-Reordered _ o g.closed)
          (λ v. find_at-select k (has_id v) all d ∙ rw found (rw e refl)))
        refl

  check_ids-place :
      (order : Groups → Groups) (all : List Token)
      → ((gs : Groups) → Reordered gs (order gs))
      → Distinct all
      → select (at_place k) (check_ids order all)
        ≡ select (at_place k) (concat_map (expected_of all) all)
  unfolding check_ids
  check_ids-place order all shuffled d =
      let gs = (collect all [] []).1 in
      let hs = order gs in
      let g = collect-Grouped all in
      let errs : select (at_place k) (collect all [] []).0 ≡ given error_of (find_at k all) =
        ap (select (at_place k)) (collect-errs all [] [])
        ∙ select-concat_map k error_of all (λ t. error-Owned k t (parse_int 32 t.text)) d in
      let wanted =
        select-concat_map k (expected_of all) all
          (λ t. expected-Owned k all t (parse_int 32 t.text)) d in
      select-append (at_place k) (collect all [] []).0 (groups_diagnostics hs)
      ∙ (rw (errs, wanted)
          (elim (Option-cases (find_at k all)) [
            | inl e ↦ rw e (
                groups-nothing all hs d (All-Reordered _ (shuffled gs) g.closed)
                  (λ v. find_at-select k (has_id v) all d ∙ rw e refl))
            | inr (t, e) ↦
                rw e (groups-token all gs hs t (parse_int 32 t.text) d g (shuffled gs) e refl)
          ]))

module _ (order : Groups → Groups) (shuffled : (gs : Groups) → Reordered gs (order gs)) where
  check_field_lists-place :
      (k : Diagnostic) (fss : List (List Field))
      → All (λ fs. Distinct (field_ids fs)) fss
      → select (at_place k) (check_field_lists order fss) ≡ select (at_place k) (expected_lists fss)
  unfolding check_field_lists expected_lists
  check_field_lists-place k [] d = refl
  check_field_lists-place k (fs ∷ fss) (d, ds) =
      select-append (at_place k) (check_ids order (field_ids fs)) (check_field_lists order fss)
      ∙ (rw (check_ids-place k order (field_ids fs) shuffled d)
            (rw (check_field_lists-place k fss ds) refl)
          ∙ sym (
              select-append (at_place k) (concat_map (expected_of (field_ids fs)) (field_ids fs))
                (expected_lists fss)))

-- Where the ids of a list of fields start at different places, and whatever the order in which the loop meets the
-- entries of the map: the diagnostics are those due to the ids, sorted by place. An id that ParseInt reads as a number
-- of 32 bits is due one if the number is not in [1, 32767], and one if the id of another field of the list is read as
-- the same number. An id that does not fit 32 bits is due the one for the range alone. Any other text, such as `08`, is
-- due none.
pub check_field_ids-expected :
    (order : Groups → Groups) (ns : List Node)
    → ((gs : Groups) → Reordered gs (order gs))
    → All (λ fs. Distinct (field_ids fs)) (field_lists ns)
    → check_field_ids order ns ≡ stable_sort not_after (expected_lists (field_lists ns))
unfolding check_field_ids
check_field_ids-expected order ns shuffled d =
    stable_sort-eq not_after not_after-total not_after_trans
      (check_field_lists order (field_lists ns)) _
      (λ k. check_field_lists-place order shuffled k (field_lists ns) d)
