-- ===== src/Syntax/Parser.antt =====
-- syntax/parser.go: `parseDocument`, `ParseTokens` and `Parse`. The functions of the parser are in the
-- modules below, which pass their place in the tokens on.
pub mod State
pub mod Values
pub mod Annotations
pub mod Types
pub mod Fields
pub mod Definitions
pub mod Layout
pub mod Nodes
pub mod Errors
pub mod Whole
mod Tests
use thrift_ls.Common.{
  ℕ, zero, suc, Bool, true, false, ◌||◌, List, [], ◌∷◌, ◌++◌, Option, none, some, if◌then◌else◌,
  Bytes, length, ltb, ◌>>=◌,
}
use thrift_ls.Syntax.Lexer.{lex}
use thrift_ls.Syntax.Parser.Annotations.{parse_structured_annotations}
use thrift_ls.Syntax.Parser.Definitions.{
  parse_include, parse_cpp_include, parse_namespace, parse_const, parse_typedef, parse_enum,
  parse_struct, parse_service,
}
use thrift_ls.Syntax.Parser.State.{Parser, at, cur, synchronize_to, error_cur}
use thrift_ls.Syntax.Token.{Token, TokenKind, Error, Message, expected, unexpected_token}
use thrift_ls.Syntax.Tree.{Node, NodeBase, Document, StructuredAnnotation}

-- The tokens that the document level skips to.
abbrev pub definition_kinds : List TokenKind
definition_kinds =
    TokenKind.include ∷ TokenKind.cpp_include ∷ TokenKind.namespace ∷ TokenKind.const
    ∷ TokenKind.typedef ∷ TokenKind.enum ∷ TokenKind.struct ∷ TokenKind.union ∷ TokenKind.exception
    ∷ TokenKind.service ∷ []

-- An error at the current token, and the way to the next definition.
unfoldable pub skip_to_definition : Message → Parser → Option (Option Node × Parser)
unfolding error_cur synchronize_to
skip_to_definition m p = synchronize_to definition_kinds (error_cur m p) >>= λ q. some (none, q)

-- The cases that the two `switch`es of `parseDocument` share; `other` stands for the rest.
unfoldable pub parse_definition :
    Option (Option Node × Parser) → Parser → Option (Option Node × Parser)
unfolding at parse_namespace parse_const parse_typedef parse_enum parse_struct parse_service
parse_definition other p =
    if at p TokenKind.namespace
    then parse_namespace p
    else if at p TokenKind.const
    then parse_const p
    else if at p TokenKind.typedef
    then parse_typedef p
    else if at p TokenKind.enum
    then parse_enum p
    else if at p TokenKind.struct || at p TokenKind.union || at p TokenKind.exception
    then parse_struct p
    else if at p TokenKind.service
    then parse_service p
    else other

-- `attachStructured`, of a node that is not nil
unfoldable pub attach : List StructuredAnnotation → Node → Node
attach [] n = n
attach (a ∷ annos) n = record n {
  base = record n.base { first = a.base.first };
  structured = a ∷ annos;
}

-- `attachStructured`
unfoldable pub attach_structured : List StructuredAnnotation → Option Node → Option Node
unfolding attach
attach_structured annos none = none
attach_structured annos (some n) = some (attach annos n)

-- The case of `@`.
unfoldable pub parse_annotated : Parser → Option (Option Node × Parser)
unfolding parse_structured_annotations cur skip_to_definition parse_definition attach_structured
parse_annotated p = parse_structured_annotations p >>= λ (annos, q).
    parse_definition (skip_to_definition (expected "definition after annotation" (cur q).text) q) q
    >>= λ (x, r). some (attach_structured annos x, r)

-- The `switch` of `parseDocument`, at a token that is not the end.
unfoldable pub parse_node : Parser → Option (Option Node × Parser)
unfolding at cur parse_include parse_cpp_include parse_definition parse_annotated skip_to_definition
parse_node p =
    if at p TokenKind.include
    then parse_include p
    else if at p TokenKind.cpp_include
    then parse_cpp_include p
    else parse_definition
        (if at p TokenKind.at
          then parse_annotated p
          else skip_to_definition (unexpected_token (cur p).text) p)
        p

-- `appendNode`, in front of the nodes that follow
unfoldable pub append_node : Option Node → List Node → List Node
append_node none ns = ns
append_node (some n) ns = n ∷ ns

-- The loop of `parseDocument`.
unfoldable pub document_loop : ℕ → Parser → Option (List Node × Parser)
unfolding at parse_node append_node
document_loop zero p = none
document_loop (suc f) p =
    let item =
      parse_node p >>= λ (x, q). document_loop f q >>= λ (ns, r). some (append_node x ns, r) in
    if at p TokenKind.eof then some ([], p) else item

abbrev pub start_of_tokens : List Token → Parser
start_of_tokens toks = record { rest = toks; pos = 0; errs = [] }

-- `ParseTokens`: every round of the loop takes a token.
unfoldable pub parse_tokens : List Token → Option (Document × List Error)
unfolding document_loop
parse_tokens toks = document_loop (suc (length toks)) (start_of_tokens toks) >>= λ (ns, p).
    some (record { tokens = toks; nodes = ns }, p.errs)

-- `sort.SliceStable` by offset: an insertion goes in front of the first error with a larger offset.
unfoldable pub insert_error : Error → List Error → List Error
insert_error e [] = e ∷ []
insert_error e (d ∷ es) = if ltb e.offset d.offset then e ∷ d ∷ es else d ∷ insert_error e es

unfoldable pub sort_errors : List Error → List Error → List Error
unfolding insert_error
sort_errors sorted [] = sorted
sort_errors sorted (e ∷ es) = sort_errors (insert_error e sorted) es

-- `Parse`
unfoldable pub parse : Bytes → Option (Document × List Error)
unfolding lex parse_tokens sort_errors
parse src = lex src >>= λ (toks, lex_errs).
    parse_tokens toks >>= λ (doc, parse_errs). some (doc, sort_errors [] (lex_errs ++ parse_errs))
