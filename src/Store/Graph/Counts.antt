-- ===== src/Store/Graph/Counts.antt =====
-- store/view.go: how often a file is in the lists that the operations on edges leave.
use thrift_ls.Common.{
  bytes_eq→≡, bytes_eq_sym, ℕ, suc, ◌+◌, ◌-◌, ◌≡◌, refl, ap, sym, subst, ◌∙◌, inl, inr, true, false,
  ◌&&◌, List, [], ◌∷◌, ◌++◌, bytes_eq, if◌then◌else◌, Bool-cases, arith,
}
use thrift_ls.Store.Graph.{
  Uri, Edges, find, delete, put, put_or_delete, has, last_of, without_last, swap_remove,
  remove_reverse, drop_all, drop_includes,
}

unfoldable pub count : Uri → List Uri → ℕ
unfolding bytes_eq
count x [] = 0
count x (y ∷ ys) = let later = count x ys in if bytes_eq x y then suc later else later

pub count-append : (x : Uri) (ys zs : List Uri) → count x (ys ++ zs) ≡ count x ys + count x zs
unfolding count
count-append x [] zs = omega arith
count-append x (y ∷ ys) zs = let later = count-append x ys zs in ground arith

-- Equal keys count the same.
same_key : (x c u : Uri) → bytes_eq c u ≡ true → bytes_eq x c ≡ bytes_eq x u
same_key x c u h = ap (bytes_eq x) (bytes_eq→≡ c u h)

other_key : (x c u : Uri) → bytes_eq c u ≡ false → bytes_eq x u ≡ true → bytes_eq x c ≡ false
other_key x c u n h =
    subst (λ z. bytes_eq z c ≡ false) (sym (bytes_eq→≡ x u h)) (bytes_eq_sym u c ∙ n)

count_rotate :
    (x d : Uri) (cs : List Uri) → count x (last_of d cs ∷ without_last (d ∷ cs)) ≡ count x (d ∷ cs)
unfolding count last_of without_last
count_rotate x d [] = refl
count_rotate x d (c ∷ cs) = let later = count_rotate x c cs in ground arith

-- One `u` less, if there is one.
pub count-swap_remove :
    (x u : Uri) (xs : List Uri)
    → count x (swap_remove u xs) ≡ count x xs - (if bytes_eq x u then 1 else 0)
unfolding count swap_remove
count-swap_remove x u [] = ground arith
count-swap_remove x u (c ∷ []) =
    let same = same_key x c u in let other = other_key x c u in ground arith
count-swap_remove x u (c ∷ d ∷ cs) =
    let same = same_key x c u in
    let other = other_key x c u in
    let turned = count_rotate x d cs in let later = count-swap_remove x u (d ∷ cs) in ground arith

pub find-delete :
    (k u : Uri) (es : Edges) → find k (delete u es) ≡ (if bytes_eq k u then [] else find k es)
unfolding find delete
find-delete k u [] = elim (Bool-cases (bytes_eq k u)) [ inl y ↦ rw y refl | inr n ↦ rw n refl ]
find-delete k u ((l, us) ∷ es) =
    let later = find-delete k u es in
    elim (Bool-cases (bytes_eq u l)) [
      | inl y ↦ let same = ap (bytes_eq k) (bytes_eq→≡ u l y) in rw y (ground arith)
      | inr n ↦ let other = other_key k l u (bytes_eq_sym l u ∙ n) in rw n (ground arith)
    ]

pub find-put :
    (k u : Uri) (us : List Uri) (es : Edges)
    → find k (put u us es) ≡ (if bytes_eq k u then us else find k es)
unfolding put find
find-put k u us es = let later = find-delete k u es in ground arith

pub find-put_or_delete :
    (k u : Uri) (us : List Uri) (es : Edges)
    → find k (put_or_delete u us es) ≡ (if bytes_eq k u then us else find k es)
unfolding put_or_delete
find-put_or_delete k u [] es = find-delete k u es
find-put_or_delete k u (x ∷ xs) es = find-put k u (x ∷ xs) es

-- Behind the loop of `removeEdgesLocked`: as many `u` less as there were includes of the file.
pub count-remove_reverse :
    (x i u : Uri) (incs : List Uri) (es : Edges)
    → count x (find i (remove_reverse u incs es))
      ≡ count x (find i es) - (if bytes_eq x u then count i incs else 0)
unfolding remove_reverse count
count-remove_reverse x i u [] es = ground arith
count-remove_reverse x i u (inc ∷ incs) es =
    let later =
      count-remove_reverse x i u incs (put_or_delete inc (swap_remove u (find inc es)) es) in
    let found = ap (count x) (find-put_or_delete i inc (swap_remove u (find inc es)) es) in
    let less = count-swap_remove x u (find inc es) in
    let same : bytes_eq i inc ≡ true → count x (find i es) ≡ count x (find inc es) =
      λ e. ap (λ z. count x (find z es)) (bytes_eq→≡ i inc e) in
    elim (Bool-cases (bytes_eq i inc)) [
      | inl y ↦
          let s = same y in
          let m =
            found ∙ ap (λ b. count x (if b then swap_remove u (find inc es) else find i es)) y in
          rw y (ground arith)
      | inr n ↦
          let m =
            found ∙ ap (λ b. count x (if b then swap_remove u (find inc es) else find i es)) n in
          rw n (ground arith)
    ]

count-drop_all :
    (x u : Uri) (xs : List Uri) → count x (drop_all u xs) ≡ (if bytes_eq x u then 0 else count x xs)
unfolding count drop_all
count-drop_all x u [] = ground arith
count-drop_all x u (y ∷ ys) =
    let later = count-drop_all x u ys in
    let same = same_key x y u in
    let other = other_key x y u in let turned = bytes_eq_sym u y in ground arith

-- Behind the loop of `Evict`: the includers of the file have no `u` left.
pub count-drop_includes :
    (x v u : Uri) (ws : List Uri) (es : Edges)
    → count x (find v (drop_includes u ws es))
      ≡ (if has ws v && bytes_eq x u then 0 else count x (find v es))
unfolding drop_includes has
count-drop_includes x v u [] es = refl
count-drop_includes x v u (w ∷ ws) es =
    let later = count-drop_includes x v u ws (put_or_delete w (drop_all u (find w es)) es) in
    let found = ap (count x) (find-put_or_delete v w (drop_all u (find w es)) es) in
    let less = count-drop_all x u (find w es) in
    let turned = bytes_eq_sym w v in
    elim (Bool-cases (bytes_eq v w)) [
      | inl y ↦
          let s = ap (λ z. count x (find z es)) (bytes_eq→≡ v w y) in
          let m = found ∙ ap (λ b. count x (if b then drop_all u (find w es) else find v es)) y in
          ground arith
      | inr n ↦
          let m = found ∙ ap (λ b. count x (if b then drop_all u (find w es) else find v es)) n in
          ground arith
    ]
