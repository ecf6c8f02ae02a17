-- ===== src/Analyzers/FieldId/Places.antt =====
-- analyzers/fieldid_check.go: the diagnostics at one place, which are those of one token.
use thrift_ls.Analyzers.FieldId.{range_diagnostic, conflict_diagnostic, not_after}
use thrift_ls.Common.Sort.{select, select-append}
use thrift_ls.Common.{
  ◌≡◌, refl, ap, ◌∙◌, Bool, true, false, ◌&&◌, List, [], ◌∷◌, ◌++◌, Option, none, some, ◌==◌,
  if◌then◌else◌, map, All, arith, Bool-cases, inl, inr, append-nil,
}
use thrift_ls.Sema.Diagnostic.{Diagnostic, token_span}
use thrift_ls.Syntax.Token.{Token}

abbrev pub same_place : Token → Token → Bool
same_place t u = t.line == u.line && t.col == u.col

-- No two of the tokens start at one place.
abbrev pub Distinct : List Token → Type 0
Distinct [] = Unit
Distinct (t ∷ ts) = All (λ u. same_place t u ≡ false) ts × Distinct ts

-- What a function gives for each token, in the order of the tokens.
unfoldable pub concat_map : (Token → List Diagnostic) → List Token → List Diagnostic
concat_map f [] = []
concat_map f (t ∷ ts) = f t ++ concat_map f ts

pub map-concat_map :
    (f : Token → Diagnostic) (ts : List Token) → map f ts ≡ concat_map (λ t. f t ∷ []) ts
unfolding concat_map
map-concat_map f [] = refl
map-concat_map f (t ∷ ts) = ap (◌∷◌ (f t)) (map-concat_map f ts)

pub not_after-total : (a b : Diagnostic) → not_after a b ≡ false → not_after b a ≡ true
unfolding not_after
not_after-total a b h = ground arith

pub not_after_trans :
    (a b c : Diagnostic) → not_after a b ≡ true → not_after b c ≡ true → not_after a c ≡ true
unfolding not_after
not_after_trans a b c h k = ground arith

-- The diagnostic is at the place `k`.
abbrev pub at_place : Diagnostic → Diagnostic → Bool
at_place k d = not_after k d && not_after d k

abbrev pub hit : Diagnostic → Token → Bool
hit k t = at_place k (range_diagnostic t)

pub conflict-hit : (k : Diagnostic) (t : Token) → at_place k (conflict_diagnostic t) ≡ hit k t
unfolding not_after conflict_diagnostic range_diagnostic
conflict-hit k t = refl

-- At most one of two tokens at different places is at the place.
hit_once :
    (k : Diagnostic) (t u : Token) → hit k t ≡ true → same_place t u ≡ false → hit k u ≡ false
unfolding not_after range_diagnostic token_span
hit_once k t u h d = ground arith

-- Every diagnostic of the list stands where the token does.
abbrev pub Owned : Diagnostic → Token → List Diagnostic → Type 0
Owned k t ds = All (λ d. at_place k d ≡ hit k t) ds

select-Owned :
    (k : Diagnostic) (t : Token) (ds : List Diagnostic)
    → Owned k t ds
    → select (at_place k) ds ≡ (if hit k t then ds else [])
unfolding select
select-Owned k t [] own = ground arith
select-Owned k t (d ∷ ds) (o, own) = let later = select-Owned k t ds own in ground arith

-- The token at the place.
unfoldable pub find_at : Diagnostic → List Token → Option Token
find_at k [] = none
find_at k (t ∷ ts) = if hit k t then some t else find_at k ts

abbrev pub given : (Token → List Diagnostic) → Option Token → List Diagnostic
given f none = []
given f (some t) = f t

find_at_none :
    (k : Diagnostic) (ts : List Token) → All (λ u. hit k u ≡ false) ts → find_at k ts ≡ none
unfolding find_at
find_at_none k [] all = refl
find_at_none k (t ∷ ts) (h, all) = rw h (find_at_none k ts all)

others_missed :
    (k : Diagnostic) (t : Token) (ts : List Token)
    → hit k t ≡ true
    → All (λ u. same_place t u ≡ false) ts
    → All (λ u. hit k u ≡ false) ts
others_missed k t [] h all = tt
others_missed k t (u ∷ ts) h (d, all) = (hit_once k t u h d, others_missed k t ts h all)

pub find_at_alone :
    (k : Diagnostic) (t : Token) (ts : List Token)
    → hit k t ≡ true
    → All (λ u. same_place t u ≡ false) ts
    → find_at k ts ≡ none
find_at_alone k t ts h all = find_at_none k ts (others_missed k t ts h all)

-- The diagnostics at a place are those of the token there.
pub select-concat_map :
    (k : Diagnostic) (f : Token → List Diagnostic) (ts : List Token)
    → ((t : Token) → Owned k t (f t))
    → Distinct ts
    → select (at_place k) (concat_map f ts) ≡ given f (find_at k ts)
unfolding concat_map find_at select
select-concat_map k f [] own d = refl
select-concat_map k f (t ∷ ts) own (others, d) =
    select-append (at_place k) (f t) (concat_map f ts)
    ∙ (ap (λ x. x ++ select (at_place k) (concat_map f ts)) (select-Owned k t (f t) (own t))
        ∙ elim (Bool-cases (hit k t)) [
          | inl h ↦ rw h (
              rw (select-concat_map k f ts own d)
                (rw (find_at_alone k t ts h others) (append-nil (f t))))
          | inr h ↦ rw h (select-concat_map k f ts own d)
        ])
