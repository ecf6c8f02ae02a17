-- ===== src/Store/Index/Tests.antt =====
-- store/index.go: the index of a document with two definitions of one name.
use thrift_ls.Common.{◌≡◌, refl, Bytes, List, [], ◌∷◌, some, none, codes, map}
use thrift_ls.Store.Index.Bound.{last_bound, last_enum_value, build_index-last_bound}
use thrift_ls.Store.Index.{Reference, build_index, lookup}
use thrift_ls.Syntax.Token.{TokenKind}
use thrift_ls.Syntax.Tree.{
  NodeBase, Identifier, Definition, Node, struct, service, const, type_ident, scalar, value_ident,
}

abbrev base : NodeBase
base = record { first = 0; last = 1 }

abbrev named : Bytes → Identifier
named s = record { base = base; text = s }

abbrev node : Definition → Node
node d = record { base = base; structured = []; definition = d }

-- `struct A {} const T c = x service A extends B {}`
abbrev nodes : List Node
nodes =
    node (struct TokenKind.struct (named (codes "A")) [] none)
    ∷ node (
        const (type_ident base (named (codes "T"))) (named (codes "c"))
          (scalar base value_ident (codes "x")) TokenKind.eof)
    ∷ node (service (named (codes "A")) (some (named (codes "B"))) [] none)
    ∷ []

-- The references, in the order of the file.
refs-nodes :
    map (λ (r : Reference). r.name) (build_index nodes).refs
    ≡ codes "T" ∷ codes "x" ∷ codes "B" ∷ []
unfolding build_index
refs-nodes = refl

build_index-last_bound_example :
    (lookup (codes "A") (build_index nodes).defs ≡ last_bound (codes "A") nodes)
    × (lookup (codes "A") (build_index nodes).enum_values ≡ last_enum_value (codes "A") nodes)
build_index-last_bound_example = build_index-last_bound (codes "A") nodes
