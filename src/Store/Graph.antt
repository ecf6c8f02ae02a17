-- ===== src/Store/Graph.antt =====
-- store/view.go: the include graph of a view, with its edges in both directions. A map is a list of its
-- keys with their values; a missing key has Go's zero value, the empty list.
pub mod Keys
pub mod Reach
pub mod Dependents
pub mod Counts
pub mod Mirrored
mod Tests
use thrift_ls.Common.{
  ℕ, zero, suc, ◌+◌, Bool, true, false, not, ◌||◌, ◌&&◌, List, [], ◌∷◌, ◌++◌, Option, none, some,
  if◌then◌else◌, Bytes, bytes_eq, length, ltb, ◌==◌, ◌>>=◌,
}

-- `uri.URI`, a string
abbrev pub Uri : Type 0
Uri = Bytes

-- `map[uri.URI][]uri.URI`
abbrev pub Edges : Type 0
Edges = List (Uri × List Uri)

-- `m[u]`
unfoldable pub find : Uri → Edges → List Uri
unfolding bytes_eq
find u [] = []
find u ((k, us) ∷ es) = if bytes_eq u k then us else find u es

-- `delete(m, u)`
unfoldable pub delete : Uri → Edges → Edges
unfolding bytes_eq
delete u [] = []
delete u ((k, us) ∷ es) = let later = delete u es in if bytes_eq u k then later else (k, us) ∷ later

-- `m[u] = us`
unfoldable pub put : Uri → List Uri → Edges → Edges
unfolding delete
put u us es = (u, us) ∷ delete u es

-- A key of a set, or an element of a list.
unfoldable pub has : List Uri → Uri → Bool
unfolding bytes_eq
has [] u = false
has (x ∷ xs) u = bytes_eq x u || has xs u

-- The two maps of `View`.
pub record Graph : Type 0 where
  pub includes : Edges
  pub includers : Edges

unfoldable pub last_of : Uri → List Uri → Uri
last_of x [] = x
last_of x (y ∷ ys) = last_of y ys

unfoldable pub without_last : List Uri → List Uri
without_last [] = []
without_last (x ∷ []) = []
without_last (x ∷ y ∷ ys) = x ∷ without_last (y ∷ ys)

-- The inner loop of `removeEdgesLocked`: the last element takes the place of the first `u`.
unfoldable pub swap_remove : Uri → List Uri → List Uri
unfolding bytes_eq last_of without_last
swap_remove u [] = []
swap_remove u (c ∷ []) = if bytes_eq c u then [] else c ∷ []
swap_remove u (c ∷ d ∷ cs) =
    let later = swap_remove u (d ∷ cs) in
    if bytes_eq c u then last_of d cs ∷ without_last (d ∷ cs) else c ∷ later

-- `v.includers[inc] = ...`, and `delete` where nothing is left
unfoldable pub put_or_delete : Uri → List Uri → Edges → Edges
unfolding put delete
put_or_delete u [] es = delete u es
put_or_delete u (x ∷ xs) es = put u (x ∷ xs) es

-- The loop of `removeEdgesLocked` over the includes of `u`.
unfoldable pub remove_reverse : Uri → List Uri → Edges → Edges
unfolding find put_or_delete swap_remove
remove_reverse u [] es = es
remove_reverse u (inc ∷ incs) es =
    remove_reverse u incs (put_or_delete inc (swap_remove u (find inc es)) es)

-- `removeEdgesLocked`
unfoldable pub remove_edges : Uri → Graph → Graph
unfolding remove_reverse find delete
remove_edges u g = record {
  includes = delete u g.includes;
  includers = remove_reverse u (find u g.includes) g.includers;
}

-- The loop of `setEntry` and of `Parse`.
unfoldable pub add_edges : Uri → List Uri → Graph → Graph
unfolding put find
add_edges u [] g = g
add_edges u (inc ∷ incs) g = add_edges u incs (record {
  includes = put u (find u g.includes ++ inc ∷ []) g.includes;
  includers = put inc (find inc g.includers ++ u ∷ []) g.includers;
})

-- `setEntry`, as far as it is about edges
unfoldable pub set_edges : Uri → List Uri → Graph → Graph
unfolding remove_edges add_edges
set_edges u incs g = add_edges u incs (remove_edges u g)

-- The loop of `Evict` over the includes of one includer, from the back: every `u` goes.
unfoldable pub drop_all : Uri → List Uri → List Uri
unfolding bytes_eq
drop_all u [] = []
drop_all u (x ∷ xs) = let later = drop_all u xs in if bytes_eq u x then later else x ∷ later

-- The loop of `Evict` over the includers of `u`.
unfoldable pub drop_includes : Uri → List Uri → Edges → Edges
unfolding find put_or_delete drop_all
drop_includes u [] es = es
drop_includes u (w ∷ ws) es = drop_includes u ws (put_or_delete w (drop_all u (find w es)) es)

-- What `Evict` does to the edges for one file.
unfoldable pub evict_file : Uri → Graph → Graph
unfolding remove_edges drop_includes find delete
evict_file u g =
    let h = remove_edges u g in
    record {
      includes = drop_includes u (find u h.includers) h.includes;
      includers = delete u h.includers;
    }

-- The dependents that are not seen yet, each once. `deps` has the same files as `seen`.
unfoldable pub fresh : List Uri → List Uri → List Uri
unfolding has
fresh [] deps = []
fresh (d ∷ ds) deps =
    let skip = fresh ds deps in
    let take_it = d ∷ fresh ds (deps ++ d ∷ []) in if has deps d then skip else take_it

-- The loop of `Dependents`, over the part of the queue from `head` on.
unfoldable pub walk : ℕ → Edges → List Uri → List Uri → Option (List Uri)
unfolding find fresh
walk f es [] deps = some deps
walk zero es (u ∷ queue) deps = none
walk (suc f) es (u ∷ queue) deps =
    let news = fresh (find u es) deps in walk f es (queue ++ news) (deps ++ news)

-- The edges of a map.
unfoldable pub targets : Edges → List Uri
targets [] = []
targets ((k, us) ∷ es) = us ++ targets es

-- The order of strings.
unfoldable pub bytes_less : Bytes → Bytes → Bool
bytes_less [] [] = false
bytes_less [] (y ∷ ys) = true
bytes_less (x ∷ xs) [] = false
bytes_less (x ∷ xs) (y ∷ ys) = let later = bytes_less xs ys in ltb x y || x == y && later

unfoldable pub insert : Uri → List Uri → List Uri
unfolding bytes_less
insert u [] = u ∷ []
insert u (x ∷ xs) = let later = insert u xs in if bytes_less u x then u ∷ x ∷ xs else x ∷ later

-- `slices.Sort`
unfoldable pub sort : List Uri → List Uri
unfolding insert
sort [] = []
sort (x ∷ xs) = insert x (sort xs)

-- `Includes` and `Includers`
unfoldable pub includes_of : Uri → Graph → List Uri
unfolding find
includes_of u g = find u g.includes

unfoldable pub includers_of : Uri → Graph → List Uri
unfolding find sort
includers_of u g = sort (find u g.includers)

-- `Dependents`; every edge puts one file on the queue at most
unfoldable pub dependents : Uri → Graph → Option (List Uri)
unfolding walk targets sort
dependents u g =
    walk (suc (length (targets g.includers))) g.includers (u ∷ []) [] >>= λ deps. some (sort deps)
