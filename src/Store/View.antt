-- ===== src/Store/View.antt =====
-- store/view.go and `Parse` of store/parse.go: the state of a view and what changes it. The content of a
-- file and the resolution of an include path are parameters, for the file system is not under src/.
mod Steps
mod Invalidated
mod Resolved
mod Refreshed
mod Affected
mod Tests
use thrift_ls.Common.{
  ℕ, zero, suc, ◌+◌, ◌%◌, ◌^◌, Bool, true, false, not, ◌||◌, ◌&&◌, List, [], ◌∷◌, ◌++◌, Option,
  none, some, if◌then◌else◌, Bytes, bytes_eq, ◌==◌, ◌>>=◌,
}
use thrift_ls.Store.Graph.{
  Uri, Graph, has, fresh, sort, remove_edges, add_edges, evict_file, dependents,
}
use thrift_ls.Syntax.Parser.{parse}
use thrift_ls.Syntax.Token.{Token, Error}
use thrift_ls.Syntax.Tree.{Document, Node, Definition, include}

-- `ParsedFile`, without what it computes from the document later
pub record ParsedFile : Type 0 where
  pub content : Bytes
  pub document : Document
  pub errors : List Error

-- `store.Parse`
unfoldable pub parse_file : Bytes → Option ParsedFile
unfolding parse
parse_file content = parse content >>= λ (doc, errs).
    some (record { content = content; document = doc; errors = errs })

-- `map[uri.URI]*viewEntry`; an entry is `none` until it is parsed.
abbrev pub Entries : Type 0
Entries = List (Uri × Option ParsedFile)

-- The guarded fields of `View`.
pub record View : Type 0 where
  pub entries : Entries
  pub graph : Graph
  pub gen : ℕ

unfoldable pub delete_entry : Uri → Entries → Entries
unfolding bytes_eq
delete_entry u [] = []
delete_entry u ((k, e) ∷ es) =
    let later = delete_entry u es in if bytes_eq u k then later else (k, e) ∷ later

-- `parsed`, of the entries
unfoldable pub parsed : Uri → Entries → Option ParsedFile
unfolding bytes_eq
parsed u [] = none
parsed u ((k, e) ∷ es) = if bytes_eq u k then e else parsed u es

-- `v.gen.Add(1)`, of a uint64
unfoldable pub next_gen : ℕ → ℕ
next_gen g = (g + 1) % 2 ^ 64

-- The paths of the includes of a document.
unfoldable pub include_paths : List Node → List Token
include_paths [] = []
include_paths (n ∷ ns) =
    let later = include_paths ns in elim n.definition [ include path ↦ path ∷ later | _ ↦ later ]

-- `strings.Trim(text, "\"'")`, from the front and from the back
unfoldable pub trim_left : Bytes → Bytes
trim_left [] = []
trim_left (c ∷ cs) = let later = trim_left cs in if c == b'"' || c == b'\'' then later else c ∷ cs

unfoldable pub trim_right : Bytes → Bytes
trim_right [] = []
trim_right (c ∷ cs) = elim (trim_right cs) [
  | [] ↦ if c == b'"' || c == b'\'' then [] else c ∷ []
  | d ∷ ds ↦ c ∷ d ∷ ds
]

-- `slices.Compact`
unfoldable pub compact : List Uri → List Uri
unfolding bytes_eq
compact [] = []
compact (x ∷ []) = x ∷ []
compact (x ∷ y ∷ ys) = let later = compact (y ∷ ys) in if bytes_eq x y then later else x ∷ later

-- A parse that has read its file: what the source holds between reading the generation and taking the
-- lock. `guarded` is the generation of the context, if it has one.
pub record Job : Type 0 where
  pub file : Uri
  pub result : ParsedFile
  pub generation : ℕ
  pub guarded : Option ℕ

-- The generation of the context, and then the generation that was read, are the one of the view.
unfoldable pub is_current : Job → View → Bool
is_current j v =
    let ours : Bool = elim j.guarded [ none ↦ true | some g ↦ g == j.generation ] in
    ours && v.gen == j.generation

module _ (resolve : Uri → Bytes → Uri) where
  -- The loop of `resolveIncludes`.
  unfoldable pub resolve_loop : Uri → List Bytes → List Token → List Uri
  unfolding has trim_left trim_right
  resolve_loop file seen [] = []
  resolve_loop file seen (t ∷ ts) =
      let text = trim_right (trim_left t.text) in
      let skip = resolve_loop file seen ts in
      let take_it = resolve file text ∷ resolve_loop file (text ∷ seen) ts in
      if has seen text then skip else take_it

  -- `resolveIncludes`
  unfoldable pub resolve_includes : Uri → List Node → List Uri
  unfolding resolve_loop include_paths sort compact
  resolve_includes file ns = compact (sort (resolve_loop file [] (include_paths ns)))

  -- The entry and the edges of a file that was parsed.
  unfoldable pub store_result : Job → View → View
  unfolding remove_edges add_edges resolve_includes delete_entry
  store_result j v = record {
    entries = (j.file, some j.result) ∷ delete_entry j.file v.entries;
    graph =
        add_edges j.file (resolve_includes j.file j.result.document.nodes)
          (remove_edges j.file v.graph);
    gen = v.gen;
  }

  -- What `Parse` does under the lock.
  unfoldable pub commit : Job → View → View
  unfolding is_current store_result
  commit j v = if is_current j v then store_result j v else v

  module _ (read : Uri → Option Bytes) where
    -- `View.Parse` with nothing between its parts; the result is `none` for an error
    unfoldable pub parse_view : Option ℕ → Uri → View → Option (Option ParsedFile × View)
    unfolding parsed parse_file commit
    parse_view guarded u v = elim (parsed u v.entries) [
      | some pf ↦ some (some pf, v)
      | none ↦ elim (read u) [
        | none ↦ some (none, v)
        | some content ↦ parse_file content >>= λ pf. some (
          some pf,
          commit (record { file = u; result = pf; generation = v.gen; guarded = guarded }) v,
        )
      ]
    ]

    -- The second loop of `Update`.
    unfoldable pub parse_all : Option ℕ → List Uri → View → Option View
    unfolding parse_view
    parse_all guarded [] v = some v
    parse_all guarded (u ∷ us) v = parse_view guarded u v >>= λ (pf, w). parse_all guarded us w

-- The first loop of `Update`.
unfoldable pub invalidate : List Uri → View → View
unfolding remove_edges delete_entry
invalidate [] v = v
invalidate (u ∷ us) v =
    invalidate us
      (record v { entries = (u, none) ∷ delete_entry u v.entries; graph = remove_edges u v.graph })

-- What `Update` does under the lock.
unfoldable pub begin_update : List Uri → View → View
unfolding invalidate next_gen
begin_update us v = let w = invalidate us v in record w { gen = next_gen w.gen }

-- The loop of `affected`; the files in `found` are the seen ones.
unfoldable pub affected_loop : Graph → List Uri → List Uri → Option (List Uri)
unfolding dependents fresh
affected_loop g [] found = some found
affected_loop g (u ∷ us) found =
    dependents u g >>= λ deps. affected_loop g us (found ++ fresh deps found)

-- `affected`
unfoldable pub affected : Graph → List Uri → Option (List Uri)
unfolding affected_loop
affected g us = affected_loop g us us

-- `Update`; the result is `ChangeResult`, the affected files and the generation
unfoldable pub update :
    (Uri → Bytes → Uri)
    → (Uri → Option Bytes)
    → Option ℕ
    → List Uri
    → View
    → Option ((List Uri × ℕ) × View)
unfolding begin_update parse_all affected compact sort
update resolve read guarded changes v =
    let us = compact (sort changes) in
    let w = begin_update us v in
    parse_all resolve read guarded us w >>= λ x.
    affected x.graph us >>= λ files. some ((files, w.gen), x)

-- The loop of `Evict`.
unfoldable pub evict_all : List Uri → View → View
unfolding evict_file delete_entry
evict_all [] v = v
evict_all (u ∷ us) v =
    evict_all us (record v { entries = delete_entry u v.entries; graph = evict_file u v.graph })

-- `Evict`
unfoldable pub evict : List Uri → View → View
unfolding evict_all compact sort next_gen
evict files v = let w = evict_all (compact (sort files)) v in record w { gen = next_gen w.gen }

-- `NewView`
abbrev pub new_view : View
new_view = record { entries = []; graph = record { includes = []; includers = [] }; gen = 0 }
