-- ===== src/Store/Index.antt =====
-- store/index.go: the index of a file, from one walk over its document. A map is a list of its keys with
-- their values, the last bound first; a set is a list of its elements.
mod Same
mod Bound
mod Tests
use thrift_ls.Common.{
  ℕ, Bool, true, false, not, ◌&&◌, ◌||◌, List, [], ◌∷◌, ◌++◌, Option, none, some, if◌then◌else◌,
  Bytes, bytes_eq, codes,
}
use thrift_ls.Syntax.Tree.{
  NodeBase, Identifier, ScalarKind, value_ident, ConstValue, ConstValues, ConstMapEntries, scalar,
  value_list, value_map, no_values, value, no_entries, entry, Annotation, Annotations,
  StructuredAnnotation, FieldType, MaybeType, type_base, type_ident, type_container, no_type,
  a_type, EnumValue, Field, Throws, Function, Definition, Node, include, cpp_include, namespace,
  const, typedef, enum, struct, service,
}

pub data RefKind : Type 0 where
  ref_field_type ref_signature_type ref_const_value ref_service_extends ref_annotation_type :
      RefKind

-- `Reference`, with the range of its node
pub record Reference : Type 0 where
  pub kind : RefKind
  pub name : Bytes
  pub node : NodeBase

-- `FileIndex`
pub record FileIndex : Type 0 where
  pub defs : List (Bytes × Node)
  pub enum_values : List (Bytes × Identifier)
  pub refs : List Reference
  pub annotations : List Bytes

unfoldable pub add_ref : RefKind → Bytes → NodeBase → FileIndex → FileIndex
add_ref k n b x = record x { refs = x.refs ++ record { kind = k; name = n; node = b } ∷ [] }

-- `note`
unfoldable pub note_items : List Annotation → FileIndex → FileIndex
note_items [] x = x
note_items (a ∷ later) x = note_items later (record x { annotations = a.name.text ∷ x.annotations })

unfoldable pub note : Option Annotations → FileIndex → FileIndex
unfolding note_items
note none x = x
note (some a) x = note_items a.items x

-- `structured`; the parser gives every annotation a name
unfoldable pub structured : List StructuredAnnotation → FileIndex → FileIndex
unfolding add_ref
structured [] x = x
structured (sa ∷ sas) x = structured sas (add_ref ref_annotation_type sa.name.text sa.name.base x)

unfoldable mutual
  unfolding add_ref note

  -- `typ`
  pub typ : FieldType → RefKind → FileIndex → FileIndex
  typ (type_base b k annos) kind x = note annos x
  typ (type_ident b i) kind x = add_ref kind i.text i.base x
  typ (type_container b c key item cpp annos) kind x =
      maybe_typ item kind (maybe_typ key kind (note annos x))

  pub maybe_typ : MaybeType → RefKind → FileIndex → FileIndex
  maybe_typ no_type kind x = x
  maybe_typ (a_type t) kind x = typ t kind x

-- The test for a reference among the scalars.
unfoldable pub is_reference : ScalarKind → Bytes → Bool
unfolding bytes_eq
is_reference value_ident text =
    not (bytes_eq text (codes "true")) && not (bytes_eq text (codes "false"))
is_reference _ text = false

unfoldable mutual
  unfolding add_ref is_reference

  -- `value`
  pub walk_value : ConstValue → FileIndex → FileIndex
  walk_value (scalar b k text) x =
      if is_reference k text then add_ref ref_const_value text b x else x
  walk_value (value_list b vs) x = walk_values vs x
  walk_value (value_map b es) x = walk_entries es x

  pub walk_values : ConstValues → FileIndex → FileIndex
  walk_values no_values x = x
  walk_values (value v vs) x = walk_values vs (walk_value v x)

  pub walk_entries : ConstMapEntries → FileIndex → FileIndex
  walk_entries no_entries x = x
  walk_entries (entry k v es) x = walk_entries es (walk_value v (walk_value k x))

unfoldable pub optional_value : Option ConstValue → FileIndex → FileIndex
unfolding walk_value
optional_value none x = x
optional_value (some v) x = walk_value v x

-- `field`
unfoldable pub field : RefKind → Field → FileIndex → FileIndex
unfolding structured note typ optional_value
field kind f x =
    optional_value f.value (typ f.type kind (note f.annotations (structured f.structured x)))

unfoldable pub fields : RefKind → List Field → FileIndex → FileIndex
unfolding field
fields kind [] x = x
fields kind (f ∷ fs) x = fields kind fs (field kind f x)

unfoldable pub optional_type : Option FieldType → RefKind → FileIndex → FileIndex
unfolding typ
optional_type none kind x = x
optional_type (some t) kind x = typ t kind x

unfoldable pub throws_fields : Option Throws → FileIndex → FileIndex
unfolding fields
throws_fields none x = x
throws_fields (some t) x = fields ref_signature_type t.fields x

-- The body of the loop over the functions of a service.
unfoldable pub function : Function → FileIndex → FileIndex
unfolding structured note optional_type fields throws_fields
function fn x = throws_fields fn.throws (
    fields ref_signature_type fn.args
      (optional_type fn.type ref_signature_type (note fn.annotations (structured fn.structured x))))

unfoldable pub service_functions : List Function → FileIndex → FileIndex
unfolding function
service_functions [] x = x
service_functions (fn ∷ fns) x = service_functions fns (function fn x)

-- The loop over the values of an enum.
unfoldable pub enum_members : List EnumValue → FileIndex → FileIndex
unfolding note
enum_members [] x = x
enum_members (ev ∷ evs) x =
    enum_members evs
      (note ev.annotations (record x { enum_values = (ev.name.text, ev.name) ∷ x.enum_values }))

-- `w.x.defs[v.Name.Text] = v`
unfoldable pub define : Identifier → Node → FileIndex → FileIndex
define i n x = record x { defs = (i.text, n) ∷ x.defs }

unfoldable pub extend : Option Identifier → FileIndex → FileIndex
unfolding add_ref
extend none x = x
extend (some i) x = add_ref ref_service_extends i.text i.base x

-- `visit`
unfoldable pub visit : Node → FileIndex → FileIndex
unfolding define structured note fields enum_members extend service_functions typ walk_value
visit n x = elim n.definition [
  | struct k name fs annos ↦
      fields ref_field_type fs (note annos (structured n.structured (define name n x)))
  | enum name vs annos ↦ enum_members vs (note annos (structured n.structured (define name n x)))
  | service name base fns annos ↦
      service_functions fns (extend base (note annos (structured n.structured (define name n x))))
  | const t name v sep ↦
      walk_value v (typ t ref_field_type (structured n.structured (define name n x)))
  | typedef t name annos sep ↦
      typ t ref_field_type (note annos (structured n.structured (define name n x)))
  | namespace scope name annos ↦ note annos (structured n.structured x)
  | include path ↦ x
  | cpp_include path ↦ x
]

unfoldable pub visit_all : List Node → FileIndex → FileIndex
unfolding visit
visit_all [] x = x
visit_all (n ∷ ns) x = visit_all ns (visit n x)

-- `buildIndex`, of a document that is not nil
unfoldable pub build_index : List Node → FileIndex
unfolding visit_all
build_index ns = visit_all ns (record { defs = []; enum_values = []; refs = []; annotations = [] })

-- `m[name]`
unfoldable pub lookup {ℓ} : {A : Type ℓ} → Bytes → List (Bytes × A) → Option A
unfolding bytes_eq
lookup name [] = none
lookup name ((k, a) ∷ es) = if bytes_eq name k then some a else lookup name es
