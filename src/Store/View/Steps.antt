-- ===== src/Store/View/Steps.antt =====
-- store/view.go: whatever parses, updates and evictions come between each other, the two maps of the
-- include graph stay each other's reverse.
use thrift_ls.Common.{ℕ, ◌≡◌, refl, List, [], ◌∷◌, ◌++◌, Option, none, some, Bytes, if_elim}
use thrift_ls.Store.Graph.Counts.{count}
use thrift_ls.Store.Graph.Mirrored.{
  Mirrored, remove_edges-Mirrored, add_edges-Mirrored, evict_file-Mirrored,
}
use thrift_ls.Store.Graph.{Uri, find, remove_edges, sort}
use thrift_ls.Store.View.{
  View, Job, ParsedFile, parse_file, parsed, is_current, resolve_includes, store_result, commit,
  begin_update, invalidate, evict, evict_all, new_view, compact,
}

-- The states of a view with the parses that have not taken the lock yet. A parse begins with a file that
-- is not parsed, and ends at any time. What an include resolves to may differ at each end of a parse, as it depends on
-- the files that exist then.
pub data Reachable : View → List Job → Type 0 where
  created : Reachable new_view []
  begun :
      {v : View} {js : List Job} (u : Uri) (content : Bytes) (pf : ParsedFile) (guarded : Option ℕ)
      → Reachable v js
      → parsed u v.entries ≡ none
      → parse_file content ≡ some pf
      → Reachable v (record { file = u; result = pf; generation = v.gen; guarded = guarded } ∷ js)
  committed :
      {v : View} (resolve : Uri → Bytes → Uri) (before after : List Job) (j : Job)
      → Reachable v (before ++ j ∷ after)
      → Reachable (commit resolve j v) (before ++ after)
  updated :
      {v : View} {js : List Job} (us : List Uri) → Reachable v js → Reachable (begin_update us v) js
  evicted : {v : View} {js : List Job} (us : List Uri) → Reachable v js → Reachable (evict us v) js

pub commit-Mirrored :
    (resolve : Uri → Bytes → Uri) (j : Job) (v : View)
    → Mirrored v.graph
    → Mirrored (commit resolve j v).graph
unfolding commit store_result
commit-Mirrored resolve j v m =
    let incs = resolve_includes resolve j.file j.result.document.nodes in
    let stored : Mirrored (store_result resolve j v).graph =
      add_edges-Mirrored j.file incs (remove_edges j.file v.graph)
        (remove_edges-Mirrored j.file v.graph m) in
    if_elim (λ (w : View). Mirrored w.graph) (is_current j v) {x = store_result resolve j v} {y = v}
      (λ _. stored) (λ _. m)

invalidate-Mirrored :
    (us : List Uri) (v : View) → Mirrored v.graph → Mirrored (invalidate us v).graph
unfolding invalidate
invalidate-Mirrored [] v m = m
invalidate-Mirrored (u ∷ us) v m = invalidate-Mirrored us _ (remove_edges-Mirrored u v.graph m)

pub begin_update-Mirrored :
    (us : List Uri) (v : View) → Mirrored v.graph → Mirrored (begin_update us v).graph
unfolding begin_update
begin_update-Mirrored us v m = invalidate-Mirrored us v m

evict_all-Mirrored : (us : List Uri) (v : View) → Mirrored v.graph → Mirrored (evict_all us v).graph
unfolding evict_all
evict_all-Mirrored [] v m = m
evict_all-Mirrored (u ∷ us) v m = evict_all-Mirrored us _ (evict_file-Mirrored u v.graph m)

-- In every state that a view reaches, with any parses in flight between updates and evictions and whatever each parse
-- resolves the includes to, a file is as often among the includes of another as the other is among its includers.
pub Reachable-Mirrored :
    (v : View) (js : List Job)
    → Reachable v js
    → (u i : Uri) → count i (find u v.graph.includes) ≡ count u (find i v.graph.includers)
unfolding evict find count
Reachable-Mirrored _ _ created u i = refl
Reachable-Mirrored _ _ (begun {v} {js} w content pf guarded r n p) u i =
    Reachable-Mirrored v js r u i
Reachable-Mirrored _ _ (committed {v} resolve before after j r) u i =
    commit-Mirrored resolve j v (Reachable-Mirrored v (before ++ j ∷ after) r) u i
Reachable-Mirrored _ _ (updated {v} {js} us r) u i =
    begin_update-Mirrored us v (Reachable-Mirrored v js r) u i
Reachable-Mirrored _ _ (evicted {v} {js} us r) u i =
    evict_all-Mirrored (compact (sort us)) v (Reachable-Mirrored v js r) u i
