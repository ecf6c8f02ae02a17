-- ===== src/Lsp/TokenFacts.antt =====
-- lsp/source/semantic.go: `tokenFacts`, the indices of the tokens that are names or begin types. `Walk` visits the nodes
-- in the order of syntax/ast_visit.go; the ones without facts are left out. A map is the list of its entries, the last
-- one first.
pub mod Types
use thrift_ls.Common.{ℕ, ◌<◌, List, [], ◌∷◌, Option, none, some, Bytes, codes, length, All}
use thrift_ls.Syntax.Token.{TokenKind}
use thrift_ls.Syntax.Tree.{
  NodeBase, Identifier, FieldType, MaybeType, type_base, type_ident, type_container, no_type,
  a_type, EnumValue, Field, Throws, Function, Definition, Node, include, cpp_include, namespace,
  const, typedef, enum, struct, service,
}

abbrev pub legend : List Bytes
legend =
    codes "keyword"
    ∷ codes "string"
    ∷ codes "number"
    ∷ codes "comment"
    ∷ codes "type"
    ∷ codes "struct"
    ∷ codes "union"
    ∷ codes "exception"
    ∷ codes "enum"
    ∷ codes "interface"
    ∷ codes "property"
    ∷ codes "function"
    ∷ codes "enumMember"
    ∷ codes "variable"
    ∷ []

abbrev pub tok_keyword : ℕ
tok_keyword = 0

abbrev pub tok_string : ℕ
tok_string = 1

abbrev pub tok_number : ℕ
tok_number = 2

abbrev pub tok_comment : ℕ
tok_comment = 3

abbrev pub tok_type : ℕ
tok_type = 4

abbrev pub tok_struct : ℕ
tok_struct = 5

abbrev pub tok_union : ℕ
tok_union = 6

abbrev pub tok_exception : ℕ
tok_exception = 7

abbrev pub tok_enum : ℕ
tok_enum = 8

abbrev pub tok_interface : ℕ
tok_interface = 9

abbrev pub tok_property : ℕ
tok_property = 10

abbrev pub tok_function : ℕ
tok_function = 11

abbrev pub tok_enum_member : ℕ
tok_enum_member = 12

abbrev pub tok_variable : ℕ
tok_variable = 13

pub record TokenFacts : Type 0 where
  pub names : List (ℕ × ℕ)
  pub types : List ℕ

unfoldable pub add_name : Identifier → ℕ → TokenFacts → TokenFacts
add_name i t x = record x { names = (i.base.first, t) ∷ x.names }

unfoldable pub add_type : NodeBase → TokenFacts → TokenFacts
add_type b x = record x { types = b.first ∷ x.types }

unfoldable mutual
  unfolding add_type

  pub type_facts : FieldType → TokenFacts → TokenFacts
  type_facts (type_base b k annos) x = add_type b x
  type_facts (type_ident b i) x = add_type b x
  type_facts (type_container b c key item cpp annos) x =
      maybe_facts item (maybe_facts key (add_type b x))

  pub maybe_facts : MaybeType → TokenFacts → TokenFacts
  maybe_facts no_type x = x
  maybe_facts (a_type t) x = type_facts t x

unfoldable pub field_facts : List Field → TokenFacts → TokenFacts
unfolding add_name type_facts
field_facts [] x = x
field_facts (f ∷ fs) x = field_facts fs (type_facts f.type (add_name f.name tok_property x))

unfoldable pub result_facts : Option FieldType → TokenFacts → TokenFacts
unfolding type_facts
result_facts none x = x
result_facts (some t) x = type_facts t x

unfoldable pub throws_facts : Option Throws → TokenFacts → TokenFacts
unfolding field_facts
throws_facts none x = x
throws_facts (some t) x = field_facts t.fields x

unfoldable pub function_facts : List Function → TokenFacts → TokenFacts
unfolding add_name result_facts field_facts throws_facts
function_facts [] x = x
function_facts (f ∷ fs) x = function_facts fs (
    throws_facts f.throws
      (field_facts f.args (result_facts f.type (add_name f.name tok_function x))))

unfoldable pub member_facts : List EnumValue → TokenFacts → TokenFacts
unfolding add_name
member_facts [] x = x
member_facts (v ∷ vs) x = member_facts vs (add_name v.name tok_enum_member x)

-- `structToken`
unfoldable pub struct_token : TokenKind → ℕ
struct_token TokenKind.union = tok_union
struct_token TokenKind.exception = tok_exception
struct_token _ = tok_struct

unfoldable pub definition_facts : Definition → TokenFacts → TokenFacts
unfolding add_name type_facts field_facts function_facts member_facts struct_token
definition_facts (struct k name fs annos) x = field_facts fs (add_name name (struct_token k) x)
definition_facts (enum name vs annos) x = member_facts vs (add_name name tok_enum x)
definition_facts (service name base fns annos) x =
    function_facts fns (add_name name tok_interface x)
definition_facts (const t name v sep) x = type_facts t (add_name name tok_variable x)
definition_facts (typedef t name annos sep) x = type_facts t (add_name name tok_type x)
definition_facts (namespace scope name annos) x = x
definition_facts (include path) x = x
definition_facts (cpp_include path) x = x

unfoldable pub nodes_facts : List Node → TokenFacts → TokenFacts
unfolding definition_facts
nodes_facts [] x = x
nodes_facts (n ∷ ns) x = nodes_facts ns (definition_facts n.definition x)

-- `tokenFacts`
unfoldable pub token_facts : List Node → TokenFacts
unfolding nodes_facts
token_facts ns = nodes_facts ns (record { names = []; types = [] })
