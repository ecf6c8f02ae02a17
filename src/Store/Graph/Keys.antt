-- ===== src/Store/Graph/Keys.antt =====
-- store/view.go: keys that are equal as strings are equal, and what is in a list.
use thrift_ls.Common.{◌≡◌, refl, ap, ◌∙◌, true, ◌||◌, List, [], ◌∷◌, ◌++◌, bytes_eq, arith}
use thrift_ls.Store.Graph.{Uri, Edges, find, has, insert, sort, targets}

pub has-append : (xs ys : List Uri) (u : Uri) → has (xs ++ ys) u ≡ (has xs u || has ys u)
unfolding has
has-append [] ys u = refl
has-append (x ∷ xs) ys u = let later = has-append xs ys u in ground arith

pub has-insert :
    (x : Uri) (xs : List Uri) (u : Uri) → has (insert x xs) u ≡ (bytes_eq x u || has xs u)
unfolding has insert
has-insert x [] u = refl
has-insert x (y ∷ xs) u = let later = has-insert x xs u in ground arith

pub has-sort : (xs : List Uri) (u : Uri) → has (sort xs) u ≡ has xs u
unfolding has sort
has-sort [] u = refl
has-sort (x ∷ xs) u =
    let later = has-sort xs u in has-insert x (sort xs) u ∙ ap (λ b. bytes_eq x u || b) later

pub has-targets : (es : Edges) (u x : Uri) → has (find u es) x ≡ true → has (targets es) x ≡ true
unfolding find targets
has-targets [] u x h = h
has-targets ((k, us) ∷ es) u x h =
    let later = has-targets es u x in let both = has-append us (targets es) x in ground arith
