-- ===== src/Store/Graph/Mirrored.antt =====
-- store/view.go: the operations on edges keep the two maps each other's reverse.
use thrift_ls.Common.{
  bytes_eq→≡, bytes_eq_sym, ◌+◌, ◌≡◌, refl, ap, ◌∙◌, inl, inr, true, false, ◌&&◌, List, [], ◌∷◌,
  ◌++◌, bytes_eq, if◌then◌else◌, Bool-cases, arith,
}
use thrift_ls.Store.Graph.{
  Uri, Edges, Graph, find, put, has, remove_edges, add_edges, set_edges, evict_file,
}
use thrift_ls.Store.Graph.Counts.{
  count, count-append, find-delete, find-put, count-remove_reverse, count-drop_includes,
}

-- A file is as often among the includes of another as the other is among its includers.
abbrev pub Mirrored : Graph → Type 0
Mirrored g = (u i : Uri) → count i (find u g.includes) ≡ count u (find i g.includers)

pub remove_edges-Mirrored : (u : Uri) (g : Graph) → Mirrored g → Mirrored (remove_edges u g)
unfolding remove_edges count
remove_edges-Mirrored u g m v i =
    let here = ap (count i) (find-delete v u g.includes) in
    let there = count-remove_reverse v i u (find u g.includes) g.includers in
    let old = m v i in
    let same : bytes_eq v u ≡ true → count i (find v g.includes) ≡ count i (find u g.includes) =
      λ e. ap (λ z. count i (find z g.includes)) (bytes_eq→≡ v u e) in
    elim (Bool-cases (bytes_eq v u)) [
      | inl y ↦
          let s = same y in
          let h = here ∙ ap (λ b. count i (if b then [] else find v g.includes)) y in ground arith
      | inr n ↦
          let h = here ∙ ap (λ b. count i (if b then [] else find v g.includes)) n in ground arith
    ]

-- A value under a key that is as often in it as an element more.
count-put :
    (x k u y : Uri) (es : Edges)
    → count x (find k (put u (find u es ++ y ∷ []) es))
      ≡ count x (find k es) + (if bytes_eq k u && bytes_eq x y then 1 else 0)
unfolding count
count-put x k u y es =
    let found = ap (count x) (find-put k u (find u es ++ y ∷ []) es) in
    let more = count-append x (find u es) (y ∷ []) in
    elim (Bool-cases (bytes_eq k u)) [
      | inl e ↦
          let s = ap (λ z. count x (find z es)) (bytes_eq→≡ k u e) in
          let h = found ∙ ap (λ b. count x (if b then find u es ++ y ∷ [] else find k es)) e in
          ground arith
      | inr n ↦
          let h = found ∙ ap (λ b. count x (if b then find u es ++ y ∷ [] else find k es)) n in
          ground arith
    ]

pub add_edges-Mirrored :
    (u : Uri) (incs : List Uri) (g : Graph) → Mirrored g → Mirrored (add_edges u incs g)
unfolding add_edges
add_edges-Mirrored u [] g m = m
add_edges-Mirrored u (inc ∷ incs) g m = add_edges-Mirrored u incs _ (λ v i.
    let a = count-put i v u inc g.includes in
    let b = count-put v i inc u g.includers in let old = m v i in ground arith)

pub set_edges-Mirrored :
    (u : Uri) (incs : List Uri) (g : Graph) → Mirrored g → Mirrored (set_edges u incs g)
unfolding set_edges
set_edges-Mirrored u incs g m =
    add_edges-Mirrored u incs (remove_edges u g) (remove_edges-Mirrored u g m)

count-has : (u : Uri) (xs : List Uri) → has xs u ≡ false → count u xs ≡ 0
unfolding count has
count-has u [] h = refl
count-has u (x ∷ xs) h = let later = count-has u xs in let turned = bytes_eq_sym u x in ground arith

pub evict_file-Mirrored : (u : Uri) (g : Graph) → Mirrored g → Mirrored (evict_file u g)
unfolding evict_file count
evict_file-Mirrored u g m v i =
    let h = remove_edges u g in
    let ws = find u h.includers in
    let old = remove_edges-Mirrored u g m v i in
    let here = count-drop_includes i v u ws h.includes in
    let found = ap (count v) (find-delete i u h.includers) in
    let none_there = count-has v ws in
    elim (Bool-cases (bytes_eq i u)) [
      | inl y ↦
          let f = found ∙ ap (λ b. count v (if b then [] else find i h.includers)) y in
          let s = ap (λ z. count v (find z h.includers)) (bytes_eq→≡ i u y) in ground arith
      | inr n ↦
          let f = found ∙ ap (λ b. count v (if b then [] else find i h.includers)) n in ground arith
    ]
