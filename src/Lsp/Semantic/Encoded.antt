-- ===== src/Lsp/Semantic/Encoded.antt =====
-- lsp/source/semantic.go: the types in the numbers.
use thrift_ls.Common.{
  ℕ, ◌+◌, ◌<◌, List, [], ◌∷◌, ◌++◌, Option, none, some, ◌==◌, if◌then◌else◌, Bytes, length, All,
  arith, if_elim, option_elim, subst,
}
use thrift_ls.Lsp.Semantic.{
  name_at, type_at, classify_kind, classify_token, TokenSegment, token_segments, append_segments,
  tokens_loop, semantic_tokens,
}
use thrift_ls.Lsp.TokenFacts.Types.{InLegend, token_facts-InLegend}
use thrift_ls.Lsp.TokenFacts.{legend, tok_type, tok_keyword, token_facts}
use thrift_ls.Syntax.Token.{Token, TokenKind, is_comment, is_keyword, is_type_keyword}
use thrift_ls.Syntax.Tree.{Document}

-- A segment with its type, and without modifiers.
pub record Marked : Type 0 where
  pub segment : TokenSegment
  pub type : ℕ

-- How the protocol has the numbers read: a line is counted from the one before, a character too where it is on the
-- same line.
unfoldable pub decode : ℕ × ℕ → List ℕ → List Marked
decode (line, char) (dl ∷ dc ∷ len ∷ typ ∷ mods ∷ rest) =
    let l = line + dl in
    let c = if dl == 0 then char + dc else dc in
    record { segment = record { line = l; char = c; length = len }; type = typ }
    ∷ decode (l, c) rest
decode prev _ = []

abbrev IsType : Option ℕ → Type 0
IsType none = Unit
IsType (some t) = t < length legend

name_at-IsType : (i : ℕ) (names : List (ℕ × ℕ)) → InLegend names → IsType (name_at i names)
unfolding name_at
name_at-IsType i [] all = tt
name_at-IsType i ((j, t) ∷ names) (h, all) =
    if_elim IsType (i == j) (λ _. h) (λ _. name_at-IsType i names all)

classify_kind-IsType : (k : TokenKind) → IsType (classify_kind k)
unfolding classify_kind
classify_kind-IsType TokenKind.string_literal = omega arith
classify_kind-IsType TokenKind.int_constant = omega arith
classify_kind-IsType TokenKind.double_constant = omega arith
classify_kind-IsType k =
    if_elim IsType (is_type_keyword k) {x = some tok_type}
      {y = if is_keyword k then some tok_keyword else none} (λ _. omega arith)
      (λ _.
        if_elim IsType (is_keyword k) {x = some tok_keyword} {y = none} (λ _. omega arith)
          (λ _. tt))

-- Where the types of the names are in the legend, so is the type of every token.
classify_token-IsType :
    (i : ℕ) (tok : Token) (names : List (ℕ × ℕ)) (types : List ℕ)
    → InLegend names
    → IsType (classify_token i tok names types)
unfolding classify_token
classify_token-IsType i tok names types all =
    if_elim IsType (is_comment tok.kind) (λ _. omega arith)
      (λ _.
        option_elim IsType (name_at i names)
          (λ _.
            if_elim IsType (type_at i types) (λ _. omega arith)
              (λ _. classify_kind-IsType tok.kind))
          (λ t e. subst IsType e (name_at-IsType i names all)))

-- The types of the segments of a token, and then those of the numbers behind them, wherever these are read from.
decode-append_segments :
    (typ : ℕ) (segs : List TokenSegment) (last prev : ℕ × ℕ) (rest : List ℕ)
    → typ < length legend
    → ((p : ℕ × ℕ) → All (λ m. m.type < length legend) (decode p rest))
    → All (λ m. m.type < length legend) (decode prev ((append_segments typ segs last).0 ++ rest))
unfolding append_segments decode
decode-append_segments typ [] last prev rest h later = later prev
decode-append_segments typ (s ∷ segs) last prev rest h later =
    (h, decode-append_segments typ segs (s.line, s.char) _ rest h later)

decode-tokens_loop :
    (content : Bytes) (names : List (ℕ × ℕ)) (types : List ℕ) (i : ℕ) (toks : List Token)
    (last prev : ℕ × ℕ)
    → InLegend names
    → All (λ m. m.type < length legend) (decode prev (tokens_loop content names types i toks last))
unfolding tokens_loop decode
decode-tokens_loop content names types i [] last prev all = tt
decode-tokens_loop content names types i (tok ∷ toks) last prev all =
    option_elim (λ ns. All (λ m. m.type < length legend) (decode prev ns))
      (classify_token i tok names types)
      (λ _. decode-tokens_loop content names types (i + 1) toks last prev all)
      λ typ e.
        decode-append_segments typ (token_segments content tok) last prev _
          (subst IsType e (classify_token-IsType i tok names types all))
          (λ p. decode-tokens_loop content names types (i + 1) toks _ p all)

-- The types that a client reads in the numbers of a document are indices of the legend.
pub semantic_tokens-types :
    (content : Bytes) (doc : Document)
    → All (λ m. m.type < length legend) (decode (0, 0) (semantic_tokens content doc))
unfolding semantic_tokens
semantic_tokens-types content doc =
    let facts = token_facts doc.nodes in
    decode-tokens_loop content facts.names facts.types 0 doc.tokens (0, 0) (0, 0)
      (token_facts-InLegend doc.nodes)
