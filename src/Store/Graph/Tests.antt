-- ===== src/Store/Graph/Tests.antt =====
-- store/view.go: the include graph of three files, two of which include each other.
use thrift_ls.Common.{◌≡◌, refl, ◌↔◌, [], ◌∷◌, some, codes, true, Returns, bytes_eq}
use thrift_ls.Store.Graph.{Uri, Graph, has, set_edges, dependents}
use thrift_ls.Store.Graph.Dependents.{dependents-Depends}
use thrift_ls.Store.Graph.Reach.{Depends}

abbrev a : Uri
a = codes "file:///a.thrift"

abbrev b : Uri
b = codes "file:///b.thrift"

abbrev c : Uri
c = codes "file:///c.thrift"

-- `a` and `b` include each other, and `c` includes `a`.
three : Graph
unfolding set_edges bytes_eq
three =
    set_edges c (a ∷ [])
      (set_edges b (a ∷ []) (set_edges a (b ∷ []) (record { includes = []; includers = [] })))

three-dependents : dependents b three ≡ some (a ∷ b ∷ c ∷ [])
unfolding dependents three
three-dependents = refl

-- Behind a new parse of `b` without includes.
less_dependents : dependents a (set_edges b [] three) ≡ some (c ∷ [])
unfolding dependents three set_edges
less_dependents = refl

dependents-Depends_example :
    Returns
      (λ deps. (x : Uri) → (has deps x ≡ true) ↔ Depends three.includers b x)
      (dependents b three)
dependents-Depends_example = dependents-Depends b three
