-- ===== src/Store/View/Refreshed.antt =====
-- store/view.go: the includes of the files after `Update`.
use thrift_ls.Common.{
  ℕ, ◌≡◌, refl, sym, ap, ◌∙◌, subst, ◌⊎◌, inl, inr, Bool, true, false, ◌&&◌, ◌==◌, List, [], ◌∷◌,
  Option, none, some, ◌>>=◌, if◌then◌else◌, if_elim, Bytes, bytes_eq, bytes_eq→≡, bytes_eq_refl,
  bytes_eq_sym, Returns, returns, Returns-bind, Returns-elim, Returns-mono, arith, Bool-cases,
}
use thrift_ls.Store.Graph.Counts.{find-delete}
use thrift_ls.Store.Graph.{Uri, has, find, remove_edges}
use thrift_ls.Store.View.Invalidated.{
  parse_file-Returns, find-add_edges, parsed-delete_entry, find-invalidate, parsed-invalidate,
}
use thrift_ls.Store.View.{
  View, Job, ParsedFile, parse_file, parsed, parse_view, parse_all, resolve_includes, is_current,
  store_result, commit, invalidate, begin_update,
}

-- A context is without a generation or of this one.
abbrev pub serves : Option ℕ → ℕ → Bool
serves guarded gen = elim guarded [ none ↦ true | some g ↦ g == gen ]

-- What the includes of a file should be: none where it is not read, or where the context is not of this generation.
unfoldable pub expected_includes :
    (Uri → Bytes → Uri) → (Uri → Option Bytes) → Option ℕ → ℕ → Uri → List Uri
expected_includes resolve read guarded gen u =
    if serves guarded gen
    then elim (read u >>= parse_file) [
      | none ↦ []
      | some pf ↦ resolve_includes resolve u pf.document.nodes
    ]
    else []

module _ (resolve : Uri → Bytes → Uri) (read : Uri → Option Bytes) (guarded : Option ℕ) where
  abbrev wanted : ℕ → Uri → List Uri
  wanted = expected_includes resolve read guarded

  find-store_result :
      (u : Uri) (j : Job) (v : View)
      → find u (store_result resolve j v).graph.includes ≡ (
          if bytes_eq u j.file
          then resolve_includes resolve j.file j.result.document.nodes
          else find u v.graph.includes)
  unfolding store_result remove_edges
  find-store_result u j v =
      let incs = resolve_includes resolve j.file j.result.document.nodes in
      let added = find-add_edges u j.file incs (remove_edges j.file v.graph) in
      let gone = find-delete u j.file v.graph.includes in
      elim (Bool-cases (bytes_eq u j.file)) [
        | inl e ↦ added ∙ (rw (gone, e) refl)
        | inr e ↦ added ∙ (rw (gone, e) refl)
      ]

  find-store_if :
      (c : Bool) (u : Uri) (j : Job) (v : View)
      → find u (if c then store_result resolve j v else v).graph.includes ≡ (
          if c && bytes_eq u j.file
          then resolve_includes resolve j.file j.result.document.nodes
          else find u v.graph.includes)
  find-store_if true u j v = find-store_result u j v
  find-store_if false u j v = refl

  find-commit :
      (u : Uri) (j : Job) (v : View)
      → find u (commit resolve j v).graph.includes ≡ (
          if is_current j v && bytes_eq u j.file
          then resolve_includes resolve j.file j.result.document.nodes
          else find u v.graph.includes)
  unfolding commit
  find-commit u j v = find-store_if (is_current j v) u j v

  commit-gen : (j : Job) (v : View) → (commit resolve j v).gen ≡ v.gen
  unfolding commit store_result
  commit-gen j v =
      if_elim (λ (w : View). w.gen ≡ v.gen) (is_current j v) {x = store_result resolve j v} {y = v}
        (λ _. refl) (λ _. refl)

  parsed-commit :
      (u : Uri) (j : Job) (v : View)
      → bytes_eq u j.file ≡ false
      → parsed u (commit resolve j v).entries ≡ parsed u v.entries
  unfolding commit store_result parsed
  parsed-commit u j v h =
      if_elim (λ (w : View). parsed u w.entries ≡ parsed u v.entries) (is_current j v)
        {x = store_result resolve j v} {y = v}
        (λ _. rw h (parsed-delete_entry u j.file v.entries h)) (λ _. refl)

  wanted-unread : (gen : ℕ) (u : Uri) → read u ≡ none → wanted gen u ≡ []
  unfolding expected_includes
  wanted-unread gen u h =
      rw h (if_elim (λ us. us ≡ []) (serves guarded gen) (λ _. refl) (λ _. refl))

  wanted-read :
      (gen : ℕ) (u : Uri) (content : Bytes) (pf : ParsedFile)
      → read u ≡ some content
      → parse_file content ≡ some pf
      → wanted gen u
        ≡ (if serves guarded gen then resolve_includes resolve u pf.document.nodes else [])
  unfolding expected_includes
  wanted-read gen u content pf h p = rw h (rw p refl)

  -- The file has no edges yet, or the right ones.
  abbrev Ready : Uri → View → Type 0
  Ready u v =
      (find u v.graph.includes ≡ wanted v.gen u)
      ⊎ ((parsed u v.entries ≡ none) × (find u v.graph.includes ≡ []))

  find-own :
      (u : Uri) (content : Bytes) (pf : ParsedFile) (v : View)
      → Ready u v
      → read u ≡ some content
      → parse_file content ≡ some pf
      → find u
          (commit resolve
            (record { file = u; result = pf; generation = v.gen; guarded = guarded })
            v).graph.includes
        ≡ wanted v.gen u
  unfolding is_current
  find-own u content pf v r e p =
      let j : Job = record { file = u; result = pf; generation = v.gen; guarded = guarded } in
      let right = wanted-read v.gen u content pf e p in
      let step = find-commit u j v in
      let self = bytes_eq_refl u in
      let same : (v.gen == v.gen) ≡ true = ground arith in
      let found : List Uri = find u (commit resolve j v).graph.includes in
      let incs : List Uri = resolve_includes resolve u pf.document.nodes in
      elim (Bool-cases (serves guarded v.gen)) [
        | inl s ↦
            let stored : found ≡ incs = step ∙ (rw (s, same, self) refl) in
            let due : wanted v.gen u ≡ incs = right ∙ (rw s refl) in stored ∙ sym due
        | inr s ↦
            let kept : found ≡ find u v.graph.includes = step ∙ (rw s refl) in
            let due : wanted v.gen u ≡ [] = right ∙ (rw s refl) in
            kept ∙ elim r [ inl f ↦ f | inr (n, f) ↦ f ∙ sym due ]
      ]

  parse_view-own :
      (u : Uri) (v : View)
      → Ready u v
      → Returns
          (λ (pf, w). (find u w.graph.includes ≡ wanted v.gen u) × (w.gen ≡ v.gen))
          (parse_view resolve read guarded u v)
  unfolding parse_view
  parse_view-own u v r =
      Returns-elim (parsed u v.entries)
        (λ unparsed.
          Returns-elim (read u)
            (λ unread.
              let empty = wanted-unread v.gen u unread in
              returns (elim r [ inl right ↦ right | inr (n, e) ↦ e ∙ sym empty ], refl))
            (λ content e. Returns-bind (parse_file-Returns content) (λ pf p. returns (
              find-own u content pf v r e p,
              commit-gen (record { file = u; result = pf; generation = v.gen; guarded = guarded })
                  v,
            ))))
        (λ pf e. returns (elim r [ inl right ↦ right | inr (n, f) ↦ absurd (cc (n, e)) ], refl))

  parse_view-other :
      (u k : Uri) (v : View)
      → bytes_eq u k ≡ false
      → Returns
          (λ (pf, w).
            (find u w.graph.includes ≡ find u v.graph.includes)
            × (parsed u w.entries ≡ parsed u v.entries)
            × (w.gen ≡ v.gen))
          (parse_view resolve read guarded k v)
  unfolding parse_view
  parse_view-other u k v h =
      Returns-elim (parsed k v.entries)
        (λ unparsed.
          Returns-elim (read k) (λ unread. returns (refl, refl, refl))
            (λ content e. Returns-bind (parse_file-Returns content) (λ pf p.
              let j : Job = record {
                file = k;
                result = pf;
                generation = v.gen;
                guarded = guarded;
              } in
              let off : (is_current j v && bytes_eq u k) ≡ false = ground arith in
              returns (find-commit u j v ∙ (rw off refl), parsed-commit u j v h, commit-gen j v))))
        (λ pf e. returns (refl, refl, refl))

  parse_all-right :
      (u : Uri) (us : List Uri) (v : View)
      → find u v.graph.includes ≡ wanted v.gen u
      → Returns
          (λ w. find u w.graph.includes ≡ wanted v.gen u)
          (parse_all resolve read guarded us v)
  unfolding parse_all
  parse_all-right u [] v h = returns h
  parse_all-right u (k ∷ us) v h =
      let later : (pf : Option ParsedFile) (w : View)
          → (find u w.graph.includes ≡ wanted v.gen u) × (w.gen ≡ v.gen)
          → Returns (λ x. find u x.graph.includes ≡ wanted v.gen u)
              (parse_all resolve read guarded us w) =
        λ pf w (f, g).
          let gens : wanted v.gen u ≡ wanted w.gen u = ap (λ n. wanted n u) (sym g) in
          Returns-mono (parse_all-right u us w (f ∙ gens)) (λ x e. e ∙ sym gens) in
      elim (Bool-cases (bytes_eq u k)) [
        | inl e ↦
            subst
              (λ i.
                Returns (λ x. find u x.graph.includes ≡ wanted v.gen u)
                  (parse_view resolve read guarded i v >>= λ (pf, w).
                    parse_all resolve read guarded us w))
              (bytes_eq→≡ u k e)
              (Returns-bind (parse_view-own u v (inl h)) (λ (pf, w) q. later pf w q))
        | inr e ↦
            Returns-bind (parse_view-other u k v e) (λ (pf, w) (f, n, g). later pf w (f ∙ h, g))
      ]

  -- A file that is among those to be parsed gets the right edges.
  parse_all-own :
      (u : Uri) (us : List Uri) (v : View)
      → has us u ≡ true
      → Ready u v
      → Returns
          (λ w. find u w.graph.includes ≡ wanted v.gen u)
          (parse_all resolve read guarded us v)
  unfolding parse_all has
  parse_all-own u [] v h r = absurd (cc)
  parse_all-own u (k ∷ us) v h r = elim (Bool-cases (bytes_eq u k)) [
    | inl e ↦
        subst
          (λ i.
            Returns (λ x. find u x.graph.includes ≡ wanted v.gen u)
              (parse_view resolve read guarded i v >>= λ (pf, w).
                parse_all resolve read guarded us w))
          (bytes_eq→≡ u k e)
          (Returns-bind (parse_view-own u v r) (λ (pf, w) (f, g).
            let gens : wanted v.gen u ≡ wanted w.gen u = ap (λ n. wanted n u) (sym g) in
            Returns-mono (parse_all-right u us w (f ∙ gens)) (λ x q. q ∙ sym gens)))
    | inr e ↦
        let turned = bytes_eq_sym k u in
        Returns-bind (parse_view-other u k v e) (λ (pf, w) (f, n, g).
          let gens : wanted v.gen u ≡ wanted w.gen u = ap (λ i. wanted i u) (sym g) in
          let ready : Ready u w = elim r [
            | inl right ↦ inl (f ∙ right ∙ gens)
            | inr (unparsed, empty) ↦ inr (n ∙ unparsed, f ∙ empty)
          ] in
          Returns-mono (parse_all-own u us w (ground arith) ready) (λ x q. q ∙ sym gens))
  ]

  -- Any other file keeps its edges.
  parse_all-other :
      (u : Uri) (us : List Uri) (v : View)
      → has us u ≡ false
      → Returns
          (λ w. find u w.graph.includes ≡ find u v.graph.includes)
          (parse_all resolve read guarded us v)
  unfolding parse_all has
  parse_all-other u [] v h = returns refl
  parse_all-other u (k ∷ us) v h =
      let turned = bytes_eq_sym k u in
      Returns-bind (parse_view-other u k v (ground arith))
        (λ (pf, w) (f, n, g). Returns-mono (parse_all-other u us w (ground arith)) (λ x q. q ∙ f))

  -- The edges after the changed files were parsed again.
  pub parse_all-begin_update :
      (u : Uri) (us : List Uri) (v : View)
      → Returns
          (λ w.
            find u w.graph.includes
            ≡ (if has us u then wanted (begin_update us v).gen u else find u v.graph.includes))
          (parse_all resolve read guarded us (begin_update us v))
  unfolding begin_update
  parse_all-begin_update u us v =
      let cleared = find-invalidate u us v in
      elim (Bool-cases (has us u)) [
        | inl e ↦
            let none_left : find u (invalidate us v).graph.includes ≡ [] = cleared ∙ (rw e refl) in
            rw e (
              parse_all-own u us (begin_update us v) e
                (inr (parsed-invalidate u us v (inl e), none_left)))
        | inr e ↦
            let kept : find u (invalidate us v).graph.includes ≡ find u v.graph.includes =
              cleared ∙ (rw e refl) in
            rw e (Returns-mono (parse_all-other u us (begin_update us v) e) (λ w q. q ∙ kept))
      ]
