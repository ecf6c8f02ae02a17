-- ===== src/Lsp/Semantic/Tests.antt =====
-- lsp/source/semantic.go: a line with a name and a comment of two lines.
use thrift_ls.Common.{ℕ, ◌+◌, ◌++◌, ◌<◌, ◌≡◌, refl, none, List, [], ◌∷◌, Bytes, codes, length, All}
use thrift_ls.Lsp.Semantic.Encoded.{Marked, decode, semantic_tokens-types}
use thrift_ls.Lsp.Semantic.{semantic_tokens}
use thrift_ls.Lsp.TokenFacts.{legend}
use thrift_ls.Mapper.{to_lsp_position}
use thrift_ls.Syntax.Token.{Token, TokenKind}
use thrift_ls.Syntax.Tree.{Document, struct}

abbrev token : TokenKind → Bytes → ℕ → Token
token k s n = record {
  kind = k;
  text = s;
  offset = n;
  line = 1;
  col = n + 1;
  blank_lines_before = 0;
}

abbrev content : Bytes
content = codes "struct S /* a" ++ b'\n' ∷ codes "b */"

abbrev toks : List Token
toks =
    token TokenKind.struct (codes "struct") 0
    ∷ token TokenKind.identifier (codes "S") 7
    ∷ token TokenKind.block_comment (codes "/* a" ++ b'\n' ∷ codes "b */") 9
    ∷ []

abbrev doc : Document
doc = record {
  tokens = toks;
  nodes =
      record {
        base = record { first = 0; last = 1 };
        structured = [];
        definition =
            struct TokenKind.struct
              (record { base = record { first = 1; last = 1 }; text = codes "S" }) [] none;
      }
      ∷ [];
}

numbers :
    semantic_tokens content doc
    ≡ 0 ∷ 0 ∷ 6 ∷ 0 ∷ 0 ∷ 0 ∷ 7 ∷ 1 ∷ 5 ∷ 0 ∷ 0 ∷ 2 ∷ 4 ∷ 3 ∷ 0 ∷ 1 ∷ 0 ∷ 4 ∷ 3 ∷ 0 ∷ []
unfolding semantic_tokens to_lsp_position
numbers = refl

semantic_tokens-types_example :
    All (λ (m : Marked). m.type < length legend) (decode (0, 0) (semantic_tokens content doc))
semantic_tokens-types_example = semantic_tokens-types content doc
