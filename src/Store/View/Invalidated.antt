-- ===== src/Store/View/Invalidated.antt =====
-- store/view.go: the entries and the edges that `Update` begins with.
use thrift_ls.Common.{
  ◌≡◌, refl, sym, ap, ◌∙◌, subst, ◌⊎◌, inl, inr, true, false, List, [], ◌∷◌, ◌++◌, append_assoc,
  append-nil, none, some, if◌then◌else◌, Bytes, bytes_eq, bytes_eq→≡, bytes_eq_sym, Returns,
  returns, Returns-result, arith, Bool-cases,
}
use thrift_ls.Store.Graph.Counts.{find-delete, find-put}
use thrift_ls.Store.Graph.{Uri, Graph, has, find, put, remove_edges, add_edges}
use thrift_ls.Store.View.{View, Entries, parse_file, parsed, delete_entry, invalidate}
use thrift_ls.Syntax.Parser.Whole.{parse-Ordered}

pub parse_file-Returns :
    (content : Bytes) → Returns (λ pf. parse_file content ≡ some pf) (parse_file content)
unfolding parse_file
parse_file-Returns content =
    let (a, e, h) = Returns-result (parse-Ordered content) in
    let done : parse_file content
        ≡ some (record { content = content; document = a.0; errors = a.1 }) =
      rw e refl in
    subst (Returns (λ pf. parse_file content ≡ some pf)) (sym done) (returns done)

pub find-add_edges :
    (k u : Uri) (incs : List Uri) (g : Graph)
    → find k (add_edges u incs g).includes
      ≡ (if bytes_eq k u then find k g.includes ++ incs else find k g.includes)
unfolding add_edges
find-add_edges k u [] g = elim (Bool-cases (bytes_eq k u)) [
  | inl e ↦ rw e (sym (append-nil (find k g.includes)))
  | inr e ↦ rw e refl
]
find-add_edges k u (inc ∷ incs) g =
    let put_in : Graph = record {
      includes = put u (find u g.includes ++ inc ∷ []) g.includes;
      includers = put inc (find inc g.includers ++ u ∷ []) g.includers;
    } in
    let later = find-add_edges k u incs put_in in
    let step = find-put k u (find u g.includes ++ inc ∷ []) g.includes in
    elim (Bool-cases (bytes_eq k u)) [
      | inl e ↦
          let same = bytes_eq→≡ k u e in
          let step' : find k put_in.includes ≡ find k g.includes ++ inc ∷ [] =
            step ∙ (rw e refl) ∙ ap (λ z. find z g.includes ++ inc ∷ []) (sym same) in
          let later' : find k (add_edges u incs put_in).includes ≡ find k put_in.includes ++ incs =
            later ∙ (rw e refl) in
          later'
          ∙ ap (λ xs. xs ++ incs) step'
          ∙ append_assoc (find k g.includes) (inc ∷ []) incs
          ∙ (rw e refl)
      | inr e ↦ later ∙ (rw e refl) ∙ step ∙ (rw e refl)
    ]

pub parsed-delete_entry :
    (u k : Uri) (es : Entries) → bytes_eq u k ≡ false → parsed u (delete_entry k es) ≡ parsed u es
unfolding parsed delete_entry
parsed-delete_entry u k [] h = refl
parsed-delete_entry u k ((l, e) ∷ es) h =
    let later = parsed-delete_entry u k es h in
    elim (Bool-cases (bytes_eq k l)) [
      | inl same ↦
          let other : bytes_eq u l ≡ false = ap (bytes_eq u) (sym (bytes_eq→≡ k l same)) ∙ h in
          rw (same, other) later
      | inr differ ↦ rw differ (ap (λ o. if bytes_eq u l then e else o) later)
    ]

pub find-invalidate :
    (u : Uri) (us : List Uri) (v : View)
    → find u (invalidate us v).graph.includes ≡ (if has us u then [] else find u v.graph.includes)
unfolding invalidate remove_edges has
find-invalidate u [] v = refl
find-invalidate u (k ∷ us) v =
    let next : View = record v {
      entries = (k, none) ∷ delete_entry k v.entries;
      graph = remove_edges k v.graph;
    } in
    let later = find-invalidate u us next in
    let step = find-delete u k v.graph.includes in
    let turned = bytes_eq_sym k u in later ∙ (rw step (ground arith))

pub parsed-invalidate :
    (u : Uri) (us : List Uri) (v : View)
    → has us u ≡ true ⊎ parsed u v.entries ≡ none
    → parsed u (invalidate us v).entries ≡ none
unfolding invalidate parsed has
parsed-invalidate u [] v (inl h) = absurd (cc)
parsed-invalidate u [] v (inr h) = h
parsed-invalidate u (k ∷ us) v h =
    parsed-invalidate u us
      (record v { entries = (k, none) ∷ delete_entry k v.entries; graph = remove_edges k v.graph })
      (elim (Bool-cases (bytes_eq u k)) [
        | inl e ↦ inr (rw e refl)
        | inr e ↦ elim h [
          | inl later ↦ inl (let turned = bytes_eq_sym k u in ground arith)
          | inr unparsed ↦ inr (rw e (parsed-delete_entry u k v.entries e ∙ unparsed))
        ]
      ])
