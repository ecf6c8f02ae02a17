-- ===== src/Syntax/Position.antt =====
-- syntax/position.go: the places of tokens and nodes of a document. An index behind the tokens, where the
-- code panics, gives `none`.
use thrift_ls.Common.{ℕ, ◌+◌, Option, some, get_elem?, length, leb, Bool, ◌&&◌, ◌>>=◌}
use thrift_ls.Mapper.{Position}
use thrift_ls.Syntax.Token.{Token}
use thrift_ls.Syntax.Tree.{NodeBase, Document}
use thrift_ls.Utf8.{rune_count}

abbrev pub token_start : Token → Position
token_start t = record { line = t.line; col = t.col; offset = t.offset }

-- The place behind a token, on the line where the token starts.
unfoldable pub token_end : Token → Position
token_end t = record {
  line = t.line;
  col = t.col + rune_count t.text;
  offset = t.offset + length t.text;
}

-- `TokenPosition`
unfoldable pub token_position : Document → ℕ → Option Position
token_position d i = get_elem? d.tokens i >>= λ t. some (token_start t)

-- `TokenEndPosition`
unfoldable pub token_end_position : Document → ℕ → Option Position
unfolding token_end
token_end_position d i = get_elem? d.tokens i >>= λ t. some (token_end t)

-- `Range`
unfoldable pub node_range : Document → NodeBase → Option (Position × Position)
unfolding token_position token_end_position
node_range d n = token_position d n.first >>= λ s. token_end_position d n.last >>= λ e. some (s, e)

-- `Contains`
unfoldable pub node_contains : Document → NodeBase → Position → Option Bool
unfolding node_range
node_contains d n p =
    node_range d n >>= λ (s, e). some (leb s.offset p.offset && leb p.offset e.offset)
