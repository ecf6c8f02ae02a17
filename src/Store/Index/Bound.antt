-- ===== src/Store/Index/Bound.antt =====
-- store/index.go: what the names of definitions and of enum values are bound to.
use thrift_ls.Common.{
  ◌≡◌, refl, ap, ◌∙◌, Bool, false, List, [], ◌∷◌, Option, none, some, if◌then◌else◌, Bytes,
  bytes_eq, Bool-cases, Option-cases, inl, inr,
}
use thrift_ls.Store.Index.{
  FileIndex, note, enum_members, define, visit, visit_all, build_index, lookup, ref_field_type,
}
use thrift_ls.Syntax.Tree.{
  NodeBase, Identifier, StructuredAnnotation, EnumValue, Definition, Node, include, cpp_include,
  namespace, const, typedef, enum, struct, service,
}
use thrift_ls.Store.Index.Same.{
  Same-trans, note-Same, structured-Same, typ-Same, walk_value-Same, fields-Same,
  service_functions-Same, extend-Same,
}

enum_members-defs : (vs : List EnumValue) (x : FileIndex) → (enum_members vs x).defs ≡ x.defs
unfolding enum_members
enum_members-defs [] x = refl
enum_members-defs (v ∷ vs) x =
    enum_members-defs vs _
    ∙ (note-Same v.annotations
        (record x { enum_values = (v.name.text, v.name) ∷ x.enum_values })).defs_eq

-- The name that a node binds.
unfoldable pub bound_name : Node → Option Bytes
bound_name n = elim n.definition [
  | struct k name fs annos ↦ some name.text
  | enum name vs annos ↦ some name.text
  | service name base fns annos ↦ some name.text
  | const t name v sep ↦ some name.text
  | typedef t name annos sep ↦ some name.text
  | _ ↦ none
]

unfoldable pub binds : Bytes → Node → Bool
unfolding bound_name bytes_eq
binds name n = elim (bound_name n) [ none ↦ false | some m ↦ bytes_eq name m ]

-- The last of the nodes that binds the name.
unfoldable pub last_bound : Bytes → List Node → Option Node
unfolding binds
last_bound name [] = none
last_bound name (n ∷ ns) = elim (last_bound name ns) [
  | some m ↦ some m
  | none ↦ if binds name n then some n else none
]

-- What a node adds to the definitions.
new_defs : Node → List (Bytes × Node) → List (Bytes × Node)
unfolding bound_name
new_defs n ds = elim (bound_name n) [ none ↦ ds | some name ↦ (name, n) ∷ ds ]

abbrev node_of : NodeBase → List StructuredAnnotation → Definition → Node
node_of b sas d = record { base = b; structured = sas; definition = d }

-- By the kind of the definition.
visit-defs' :
    (b : NodeBase) (sas : List StructuredAnnotation) (d : Definition) (x : FileIndex)
    → (visit (node_of b sas d) x).defs ≡ new_defs (node_of b sas d) x.defs
unfolding visit new_defs define bound_name
visit-defs' b sas (struct k name fs annos) x =
    (Same-trans (structured-Same sas _)
      (Same-trans (note-Same annos _) (fields-Same ref_field_type fs _))).defs_eq
visit-defs' b sas (enum name vs annos) x =
    enum_members-defs vs _ ∙ (Same-trans (structured-Same sas _) (note-Same annos _)).defs_eq
visit-defs' b sas (service name base fns annos) x =
    (Same-trans (structured-Same sas _) (
      Same-trans (note-Same annos _)
        (Same-trans (extend-Same base _) (service_functions-Same fns _)))).defs_eq
visit-defs' b sas (const t name v sep) x =
    (Same-trans (structured-Same sas _)
      (Same-trans (typ-Same t ref_field_type _) (walk_value-Same v _))).defs_eq
visit-defs' b sas (typedef t name annos sep) x =
    (Same-trans (structured-Same sas _)
      (Same-trans (note-Same annos _) (typ-Same t ref_field_type _))).defs_eq
visit-defs' b sas (namespace scope name annos) x =
    (Same-trans (structured-Same sas _) (note-Same annos _)).defs_eq
visit-defs' b sas (include path) x = refl
visit-defs' b sas (cpp_include path) x = refl

visit-defs : (n : Node) (x : FileIndex) → (visit n x).defs ≡ new_defs n x.defs
visit-defs n x = visit-defs' n.base n.structured n.definition x

-- What is looked up after a node: the node where it binds the name.
lookup-new_defs :
    (name : Bytes) (n : Node) (ds : List (Bytes × Node))
    → lookup name (new_defs n ds) ≡ (if binds name n then some n else lookup name ds)
unfolding lookup new_defs binds
lookup-new_defs name n ds =
    elim (bound_name n)
      as (λ b.
        lookup name (elim b [ none ↦ ds | some m ↦ (m, n) ∷ ds ])
        ≡ (if elim b [ none ↦ false | some m ↦ bytes_eq name m ] then some n else lookup name ds)) [
          | none ↦ refl
          | some m ↦ refl
        ]

-- The last of the nodes that binds the name, and what was bound before where none does.
lookup-visit_all :
    (name : Bytes) (ns : List Node) (x : FileIndex)
    → lookup name (visit_all ns x).defs
      ≡ elim (last_bound name ns) [ some m ↦ some m | none ↦ lookup name x.defs ]
unfolding visit_all last_bound
lookup-visit_all name [] x = refl
lookup-visit_all name (n ∷ ns) x =
    let first : lookup name (visit n x).defs
        ≡ (if binds name n then some n else lookup name x.defs) =
      ap (lookup name) (visit-defs n x) ∙ lookup-new_defs name n x.defs in
    lookup-visit_all name ns (visit n x) ∙ elim (Option-cases (last_bound name ns)) [
      | inl e ↦
          rw e (first ∙ elim (Bool-cases (binds name n)) [ inl y ↦ rw y refl | inr f ↦ rw f refl ])
      | inr (m, e) ↦ rw e refl
    ]

-- The first of two results that is there.
unfoldable pub or_else {ℓ} : {A : Type ℓ} → Option A → Option A → Option A
or_else (some a) o = some a
or_else none o = o

or_else_assoc {ℓ} :
    {A : Type ℓ} (o p q : Option A) → or_else o (or_else p q) ≡ or_else (or_else o p) q
unfolding or_else
or_else_assoc (some a) p q = refl
or_else_assoc none p q = refl

-- The values of an enum, and none of another node.
unfoldable pub values_of : Node → List EnumValue
values_of n = elim n.definition [ enum name vs annos ↦ vs | _ ↦ [] ]

-- The last of the values of that name, among the values of an enum and of all enums.
unfoldable pub last_value : Bytes → List EnumValue → Option Identifier
unfolding or_else bytes_eq
last_value name [] = none
last_value name (v ∷ vs) =
    or_else (last_value name vs) (if bytes_eq name v.name.text then some v.name else none)

unfoldable pub last_enum_value : Bytes → List Node → Option Identifier
unfolding or_else last_value values_of
last_enum_value name [] = none
last_enum_value name (n ∷ ns) = or_else (last_enum_value name ns) (last_value name (values_of n))

lookup-enum_members :
    (name : Bytes) (vs : List EnumValue) (x : FileIndex)
    → lookup name (enum_members vs x).enum_values
      ≡ or_else (last_value name vs) (lookup name x.enum_values)
unfolding enum_members last_value or_else lookup
lookup-enum_members name [] x = refl
lookup-enum_members name (v ∷ vs) x =
    let y : FileIndex = record x { enum_values = (v.name.text, v.name) ∷ x.enum_values } in
    let first : lookup name (note v.annotations y).enum_values
        ≡ or_else (if bytes_eq name v.name.text then some v.name else none)
            (lookup name x.enum_values) =
      ap (lookup name) (note-Same v.annotations y).values_eq
      ∙ elim (Bool-cases (bytes_eq name v.name.text)) [ inl e ↦ rw e refl | inr f ↦ rw f refl ] in
    lookup-enum_members name vs (note v.annotations y)
    ∙ ap (or_else (last_value name vs)) first
    ∙ or_else_assoc (last_value name vs) _ _

-- By the kind of the definition.
visit-values :
    (name : Bytes) (b : NodeBase) (sas : List StructuredAnnotation) (d : Definition) (x : FileIndex)
    → lookup name (visit (node_of b sas d) x).enum_values
      ≡ or_else (last_value name (values_of (node_of b sas d))) (lookup name x.enum_values)
unfolding visit define values_of last_value or_else
visit-values name b sas (struct k i fs annos) x =
    ap (lookup name)
      (Same-trans (structured-Same sas _)
        (Same-trans (note-Same annos _) (fields-Same ref_field_type fs _))).values_eq
visit-values name b sas (enum i vs annos) x =
    lookup-enum_members name vs _
    ∙ ap (λ y. or_else (last_value name vs) (lookup name y))
        (Same-trans (structured-Same sas _) (note-Same annos _)).values_eq
visit-values name b sas (service i base fns annos) x =
    ap (lookup name)
      (Same-trans (structured-Same sas _) (
        Same-trans (note-Same annos _)
          (Same-trans (extend-Same base _) (service_functions-Same fns _)))).values_eq
visit-values name b sas (const t i v sep) x =
    ap (lookup name)
      (Same-trans (structured-Same sas _)
        (Same-trans (typ-Same t ref_field_type _) (walk_value-Same v _))).values_eq
visit-values name b sas (typedef t i annos sep) x =
    ap (lookup name)
      (Same-trans (structured-Same sas _)
        (Same-trans (note-Same annos _) (typ-Same t ref_field_type _))).values_eq
visit-values name b sas (namespace scope i annos) x =
    ap (lookup name) (Same-trans (structured-Same sas _) (note-Same annos _)).values_eq
visit-values name b sas (include path) x = refl
visit-values name b sas (cpp_include path) x = refl

values-visit_all :
    (name : Bytes) (ns : List Node) (x : FileIndex)
    → lookup name (visit_all ns x).enum_values
      ≡ or_else (last_enum_value name ns) (lookup name x.enum_values)
unfolding visit_all last_enum_value or_else
values-visit_all name [] x = refl
values-visit_all name (n ∷ ns) x =
    values-visit_all name ns (visit n x)
    ∙ ap (or_else (last_enum_value name ns)) (visit-values name n.base n.structured n.definition x)
    ∙ or_else_assoc (last_enum_value name ns) _ _

or_else-none {ℓ} : {A : Type ℓ} (o : Option A) → or_else o none ≡ o
unfolding or_else
or_else-none none = refl
or_else-none (some a) = refl

-- For every document, the index binds a name to the last struct, enum, service, const or typedef of that
-- name, and no other name. A name of enum values is bound to the last value of that name, of whichever enum.
pub build_index-last_bound :
    (name : Bytes) (ns : List Node)
    → (lookup name (build_index ns).defs ≡ last_bound name ns)
      × (lookup name (build_index ns).enum_values ≡ last_enum_value name ns)
unfolding build_index lookup
build_index-last_bound name ns = (
  lookup-visit_all name ns _
      ∙ elim (Option-cases (last_bound name ns)) [ inl e ↦ rw e refl | inr (m, e) ↦ rw e refl ],
  values-visit_all name ns _ ∙ or_else-none (last_enum_value name ns),
)
