-- ===== src/Lsp/TokenFacts/Types.antt =====
-- lsp/source/semantic.go: the names that `tokenFacts` collects have types of the legend.
use thrift_ls.Common.{ℕ, ◌<◌, List, [], ◌∷◌, Option, none, some, length, All, arith}
use thrift_ls.Lsp.TokenFacts.{
  legend, TokenFacts, add_type, type_facts, maybe_facts, field_facts, result_facts, throws_facts,
  function_facts, member_facts, struct_token, definition_facts, nodes_facts, token_facts,
}
use thrift_ls.Syntax.Token.{TokenKind}
use thrift_ls.Syntax.Tree.{
  FieldType, MaybeType, type_base, type_ident, type_container, no_type, a_type, EnumValue, Field,
  Throws, Function, Definition, Node, include, cpp_include, namespace, const, typedef, enum, struct,
  service,
}

abbrev pub InLegend : List (ℕ × ℕ) → Type 0
InLegend names = All (λ (n : ℕ × ℕ). n.1 < length legend) names

abbrev Typed : TokenFacts → Type 0
Typed x = InLegend x.names

mutual
  unfolding type_facts

  type_facts-Typed : (t : FieldType) (x : TokenFacts) → Typed x → Typed (type_facts t x)
  type_facts-Typed (type_base b k annos) x h = h
  type_facts-Typed (type_ident b i) x h = h
  type_facts-Typed (type_container b c key item cpp annos) x h =
      maybe_facts-Typed item _ (maybe_facts-Typed key (add_type b x) h)

  maybe_facts-Typed : (t : MaybeType) (x : TokenFacts) → Typed x → Typed (maybe_facts t x)
  maybe_facts-Typed no_type x h = h
  maybe_facts-Typed (a_type t) x h = type_facts-Typed t x h

field_facts-Typed : (fs : List Field) (x : TokenFacts) → Typed x → Typed (field_facts fs x)
unfolding field_facts
field_facts-Typed [] x h = h
field_facts-Typed (f ∷ fs) x h = field_facts-Typed fs _ (type_facts-Typed f.type _ (omega arith, h))

result_facts-Typed : (t : Option FieldType) (x : TokenFacts) → Typed x → Typed (result_facts t x)
unfolding result_facts
result_facts-Typed none x h = h
result_facts-Typed (some t) x h = type_facts-Typed t x h

throws_facts-Typed : (t : Option Throws) (x : TokenFacts) → Typed x → Typed (throws_facts t x)
unfolding throws_facts
throws_facts-Typed none x h = h
throws_facts-Typed (some t) x h = field_facts-Typed t.fields x h

function_facts-Typed : (fs : List Function) (x : TokenFacts) → Typed x → Typed (function_facts fs x)
unfolding function_facts
function_facts-Typed [] x h = h
function_facts-Typed (f ∷ fs) x h = function_facts-Typed fs _ (
    throws_facts-Typed f.throws _
      (field_facts-Typed f.args _ (result_facts-Typed f.type _ (omega arith, h))))

member_facts-Typed : (vs : List EnumValue) (x : TokenFacts) → Typed x → Typed (member_facts vs x)
unfolding member_facts
member_facts-Typed [] x h = h
member_facts-Typed (v ∷ vs) x h = member_facts-Typed vs _ (omega arith, h)

struct_token-lt : (k : TokenKind) → struct_token k < length legend
unfolding struct_token
struct_token-lt TokenKind.union = omega arith
struct_token-lt TokenKind.exception = omega arith
struct_token-lt _ = omega arith

definition_facts-Typed : (d : Definition) (x : TokenFacts) → Typed x → Typed (definition_facts d x)
unfolding definition_facts
definition_facts-Typed (struct k name fs annos) x h = field_facts-Typed fs _ (struct_token-lt k, h)
definition_facts-Typed (enum name vs annos) x h = member_facts-Typed vs _ (omega arith, h)
definition_facts-Typed (service name base fns annos) x h =
    function_facts-Typed fns _ (omega arith, h)
definition_facts-Typed (const t name v sep) x h = type_facts-Typed t _ (omega arith, h)
definition_facts-Typed (typedef t name annos sep) x h = type_facts-Typed t _ (omega arith, h)
definition_facts-Typed (namespace scope name annos) x h = h
definition_facts-Typed (include path) x h = h
definition_facts-Typed (cpp_include path) x h = h

nodes_facts-Typed : (ns : List Node) (x : TokenFacts) → Typed x → Typed (nodes_facts ns x)
unfolding nodes_facts
nodes_facts-Typed [] x h = h
nodes_facts-Typed (n ∷ ns) x h = nodes_facts-Typed ns _ (definition_facts-Typed n.definition x h)

pub token_facts-InLegend : (ns : List Node) → InLegend (token_facts ns).names
unfolding token_facts
token_facts-InLegend ns = nodes_facts-Typed ns _ tt
