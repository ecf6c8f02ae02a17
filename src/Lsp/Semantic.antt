-- ===== src/Lsp/Semantic.antt =====
-- lsp/source/semantic.go: the semantic tokens of a document, as the numbers that the protocol has for them.
pub mod Encoded
mod Tests
use thrift_ls.Common.Int.{pos}
use thrift_ls.Common.{
  ℕ, ◌+◌, ◌-◌, ◌^◌, Bool, true, false, ◌&&◌, List, [], ◌∷◌, ◌++◌, Option, none, some, ltb, ◌==◌,
  if◌then◌else◌, Bytes, codes, length, get_or,
}
use thrift_ls.Lsp.TokenFacts.{
  tok_keyword, tok_string, tok_number, tok_comment, tok_type, token_facts,
}
use thrift_ls.Mapper.{LspPosition, uint32, to_lsp_position}
use thrift_ls.Syntax.Token.{Token, TokenKind, is_comment, is_keyword, is_type_keyword}
use thrift_ls.Syntax.Tree.{Document}

-- `names[i]`
unfoldable pub name_at : ℕ → List (ℕ × ℕ) → Option ℕ
name_at i [] = none
name_at i ((j, t) ∷ names) = if i == j then some t else name_at i names

-- `types[i]`
unfoldable pub type_at : ℕ → List ℕ → Bool
type_at i [] = false
type_at i (j ∷ types) = if i == j then true else type_at i types

-- The classification by the kind alone.
unfoldable pub classify_kind : TokenKind → Option ℕ
unfolding is_type_keyword is_keyword
classify_kind TokenKind.string_literal = some tok_string
classify_kind TokenKind.int_constant = some tok_number
classify_kind TokenKind.double_constant = some tok_number
classify_kind k =
    if is_type_keyword k then some tok_type else if is_keyword k then some tok_keyword else none

-- `classifyToken`
unfoldable pub classify_token : ℕ → Token → List (ℕ × ℕ) → List ℕ → Option ℕ
unfolding is_comment name_at type_at classify_kind
classify_token i tok names types =
    let by_kind = if type_at i types then some tok_type else classify_kind tok.kind in
    let named : Option ℕ = elim (name_at i names) [ some t ↦ some t | none ↦ by_kind ] in
    if is_comment tok.kind then some tok_comment else named

-- `tokenSegment`
pub record TokenSegment : Type 0 where
  pub line : ℕ
  pub char : ℕ
  pub length : ℕ

-- `length := a - b; length > 0`, of 32-bit numbers
unfoldable pub add_segment : ℕ → ℕ → ℕ → List TokenSegment → List TokenSegment
add_segment line char end segs =
    let size = uint32 (end + 2 ^ 32 - char) in
    if ltb 0 size then segs ++ record { line = line; char = char; length = size } ∷ [] else segs

-- The loop over the text, with the last byte; what is left of the text stands at `offset`. A rune that is a newline is
-- a byte that is one.
unfoldable pub segments_loop :
    Bytes → LspPosition → Bytes → ℕ → Bool → ℕ → ℕ → List TokenSegment → List TokenSegment
unfolding add_segment to_lsp_position
segments_loop content end [] offset after_cr line char segs =
    add_segment line char end.character segs
segments_loop content end (b ∷ bs) offset after_cr line char segs =
    let same_line = segments_loop content end bs (offset + 1) (b == b'\r') line char segs in
    let new_line : List TokenSegment =
      elim (to_lsp_position content (pos (if after_cr then offset - 1 else offset))) [
        | none ↦ segs
        | some p ↦
            segments_loop content end bs (offset + 1) false (uint32 (line + 1)) 0
              (add_segment line char p.character segs)
      ] in
    if b == b'\n' then new_line else same_line

-- `tokenSegments`
unfoldable pub token_segments : Bytes → Token → List TokenSegment
unfolding to_lsp_position segments_loop
token_segments content tok = elim (to_lsp_position content (pos tok.offset)) [
  | none ↦ []
  | some start ↦ elim (to_lsp_position content (pos (tok.offset + length tok.text))) [
    | none ↦ []
    | some end ↦
        if start.line == end.line
        then record {
          line = start.line;
          char = start.character;
          length = uint32 (end.character + 2 ^ 32 - start.character);
        }
          ∷ []
        else segments_loop content end tok.text tok.offset false start.line start.character []
  ]
]

-- The inner loop of `Tokens`, with `prevLine` and `prevChar`, and what it leaves them at.
unfoldable pub append_segments : ℕ → List TokenSegment → ℕ × ℕ → List ℕ × (ℕ × ℕ)
append_segments typ [] prev = ([], prev)
append_segments typ (s ∷ segs) (line, char) =
    let (later, last) = append_segments typ segs (s.line, s.char) in
    let delta_char = if s.line == line then uint32 (s.char + 2 ^ 32 - char) else s.char in
    (uint32 (s.line + 2 ^ 32 - line) ∷ delta_char ∷ s.length ∷ typ ∷ 0 ∷ later, last)

module _ (content : Bytes) (names : List (ℕ × ℕ)) (types : List ℕ) where
  -- The outer loop of `Tokens`.
  unfoldable pub tokens_loop : ℕ → List Token → ℕ × ℕ → List ℕ
  unfolding classify_token token_segments append_segments
  tokens_loop i [] prev = []
  tokens_loop i (tok ∷ toks) prev = elim (classify_token i tok names types) [
    | none ↦ tokens_loop (i + 1) toks prev
    | some typ ↦
        let (numbers, last) = append_segments typ (token_segments content tok) prev in
        numbers ++ tokens_loop (i + 1) toks last
  ]

-- `Tokens` of a content and the document that was parsed from it
unfoldable pub semantic_tokens : Bytes → Document → List ℕ
unfolding tokens_loop token_facts
semantic_tokens content doc =
    let facts = token_facts doc.nodes in
    tokens_loop content facts.names facts.types 0 doc.tokens (0, 0)
