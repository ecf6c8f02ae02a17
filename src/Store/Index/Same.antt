-- ===== src/Store/Index/Same.antt =====
-- store/index.go: the steps of the walk that bind no name.
use thrift_ls.Common.{◌≡◌, refl, ◌∙◌, List, [], ◌∷◌, Option, none, some, Bytes, if_elim}
use thrift_ls.Store.Index.{
  RefKind, FileIndex, add_ref, note_items, note, structured, typ, maybe_typ, is_reference,
  walk_value, walk_values, walk_entries, optional_value, field, fields, optional_type,
  throws_fields, function, service_functions, extend, ref_signature_type, ref_annotation_type,
}
use thrift_ls.Syntax.Tree.{
  NodeBase, Identifier, ConstValue, ConstValues, ConstMapEntries, scalar, value_list, value_map,
  no_values, value, no_entries, entry, Annotation, Annotations, StructuredAnnotation, FieldType,
  MaybeType, type_base, type_ident, type_container, no_type, a_type, Field, Throws, Function,
}

-- A step of the walk that binds no name.
pub record Same (x y : FileIndex) : Type 0 where
  pub defs_eq : y.defs ≡ x.defs
  pub values_eq : y.enum_values ≡ x.enum_values

pub Same-refl : (x : FileIndex) → Same x x
Same-refl x = record { defs_eq = refl; values_eq = refl }

pub Same-trans : {x y z : FileIndex} → Same x y → Same y z → Same x z
Same-trans s t = record { defs_eq = t.defs_eq ∙ s.defs_eq; values_eq = t.values_eq ∙ s.values_eq }

pub add_ref-Same :
    (k : RefKind) (n : Bytes) (b : NodeBase) (x : FileIndex) → Same x (add_ref k n b x)
unfolding add_ref
add_ref-Same k n b x = record { defs_eq = refl; values_eq = refl }

pub note_items-Same : (items : List Annotation) (x : FileIndex) → Same x (note_items items x)
unfolding note_items
note_items-Same [] x = Same-refl x
note_items-Same (a ∷ more) x =
    let m = note_items-Same more (record x { annotations = a.name.text ∷ x.annotations }) in
    record { defs_eq = m.defs_eq; values_eq = m.values_eq }

pub note-Same : (a : Option Annotations) (x : FileIndex) → Same x (note a x)
unfolding note
note-Same none x = Same-refl x
note-Same (some a) x = note_items-Same a.items x

pub structured-Same : (sas : List StructuredAnnotation) (x : FileIndex) → Same x (structured sas x)
unfolding structured
structured-Same [] x = Same-refl x
structured-Same (sa ∷ sas) x =
    Same-trans (add_ref-Same ref_annotation_type sa.name.text sa.name.base x)
      (structured-Same sas _)

mutual
  unfolding typ

  pub typ-Same : (t : FieldType) (k : RefKind) (x : FileIndex) → Same x (typ t k x)
  typ-Same (type_base b l annos) k x = note-Same annos x
  typ-Same (type_ident b i) k x = add_ref-Same k i.text i.base x
  typ-Same (type_container b c key item cpp annos) k x =
      Same-trans (note-Same annos x)
        (Same-trans (maybe_typ-Same key k (note annos x)) (maybe_typ-Same item k _))

  pub maybe_typ-Same : (t : MaybeType) (k : RefKind) (x : FileIndex) → Same x (maybe_typ t k x)
  maybe_typ-Same no_type k x = Same-refl x
  maybe_typ-Same (a_type t) k x = typ-Same t k x

mutual
  unfolding walk_value

  pub walk_value-Same : (v : ConstValue) (x : FileIndex) → Same x (walk_value v x)
  walk_value-Same (scalar b k text) x =
      if_elim (Same x) (is_reference k text) (λ _. add_ref-Same _ text b x) (λ _. Same-refl x)
  walk_value-Same (value_list b vs) x = walk_values-Same vs x
  walk_value-Same (value_map b es) x = walk_entries-Same es x

  pub walk_values-Same : (vs : ConstValues) (x : FileIndex) → Same x (walk_values vs x)
  walk_values-Same no_values x = Same-refl x
  walk_values-Same (value v vs) x = Same-trans (walk_value-Same v x) (walk_values-Same vs _)

  pub walk_entries-Same : (es : ConstMapEntries) (x : FileIndex) → Same x (walk_entries es x)
  walk_entries-Same no_entries x = Same-refl x
  walk_entries-Same (entry k v es) x =
      Same-trans (walk_value-Same k x) (Same-trans (walk_value-Same v _) (walk_entries-Same es _))

pub optional_value-Same : (v : Option ConstValue) (x : FileIndex) → Same x (optional_value v x)
unfolding optional_value
optional_value-Same none x = Same-refl x
optional_value-Same (some v) x = walk_value-Same v x

pub field-Same : (k : RefKind) (f : Field) (x : FileIndex) → Same x (field k f x)
unfolding field
field-Same k f x = Same-trans (structured-Same f.structured x) (
    Same-trans (note-Same f.annotations _)
      (Same-trans (typ-Same f.type k _) (optional_value-Same f.value _)))

pub fields-Same : (k : RefKind) (fs : List Field) (x : FileIndex) → Same x (fields k fs x)
unfolding fields
fields-Same k [] x = Same-refl x
fields-Same k (f ∷ fs) x = Same-trans (field-Same k f x) (fields-Same k fs _)

pub optional_type-Same :
    (t : Option FieldType) (k : RefKind) (x : FileIndex) → Same x (optional_type t k x)
unfolding optional_type
optional_type-Same none k x = Same-refl x
optional_type-Same (some t) k x = typ-Same t k x

pub throws_fields-Same : (t : Option Throws) (x : FileIndex) → Same x (throws_fields t x)
unfolding throws_fields
throws_fields-Same none x = Same-refl x
throws_fields-Same (some t) x = fields-Same ref_signature_type t.fields x

pub function-Same : (f : Function) (x : FileIndex) → Same x (function f x)
unfolding function
function-Same f x = Same-trans (structured-Same f.structured x) (
    Same-trans (note-Same f.annotations _) (
      Same-trans (optional_type-Same f.type ref_signature_type _)
        (Same-trans (fields-Same ref_signature_type f.args _) (throws_fields-Same f.throws _))))

pub service_functions-Same : (fs : List Function) (x : FileIndex) → Same x (service_functions fs x)
unfolding service_functions
service_functions-Same [] x = Same-refl x
service_functions-Same (f ∷ fs) x = Same-trans (function-Same f x) (service_functions-Same fs _)

pub extend-Same : (i : Option Identifier) (x : FileIndex) → Same x (extend i x)
unfolding extend
extend-Same none x = Same-refl x
extend-Same (some i) x = add_ref-Same _ i.text i.base x
