-- ===== src/Doc.antt =====
-- doc/doc.go: the document algebra. A group is a node that printing writes to (its flag `brk`), so it
-- carries a name, its address, and the flags are a function of the addresses: two occurrences of one
-- address are one shared group. An address stands for one group, with one body.
pub mod Breaks
pub mod Printer
pub mod Fits
pub mod Run
mod Tests
mod Tidy
use thrift_ls.Common.{ℕ, Bool, true, false, Bytes}

-- `LineDoc`
pub record LineDoc : Type 0 where
  pub soft : Bool
  pub hard : Bool
  pub literal : Bool
  pub comment : Bool
  pub after_comment : Bool

mutual
  -- `Doc`: `text` is `Text` and `*textNode`, `concat` is `Concat` and `*concatNode`, and `missing` is
  -- a nil interface value.
  pub data Doc : Type 0 where
    missing : Doc
    text : Bytes → Doc
    concat : Docs → Doc
    line : LineDoc → Doc
    -- address, `id`, `doc`, `expanded` (no states for nil)
    group : ℕ → ℕ → Doc → Docs → Doc
    -- `breakDoc`, `flatDoc`, `groupID`
    if_break : Doc → Doc → ℕ → Doc
    indent : Doc → Doc
    align : ℕ → Doc → Doc
    line_suffix : Doc → Doc
    line_suffix_boundary trim break_parent : Doc

  pub data Docs : Type 0 where
    none : Docs
    some : Doc → Docs → Docs

abbrev plain : LineDoc
plain = record {
  soft = false;
  hard = false;
  literal = false;
  comment = false;
  after_comment = false;
}

-- `LineDoc{}`, which the source names `Line`, and the other values of doc.go
abbrev pub plain_line : Doc
plain_line = line plain

abbrev pub soft_line : Doc
soft_line = line (record plain { soft = true })

abbrev pub hard_line_no_break : Doc
hard_line_no_break = line (record plain { hard = true })

abbrev pub literal_line_no_break : Doc
literal_line_no_break = line (record plain { hard = true; literal = true })

abbrev pub comment_line_no_break : Doc
comment_line_no_break = line (record plain { hard = true; comment = true })

abbrev breaking : Doc → Doc
breaking d = concat (some d (some break_parent none))

abbrev pub hard_line : Doc
hard_line = breaking hard_line_no_break

abbrev pub literal_line : Doc
literal_line = breaking literal_line_no_break

abbrev pub comment_line : Doc
comment_line = breaking comment_line_no_break

abbrev pub after_comment_line : Doc
after_comment_line = line (record plain { soft = true; after_comment = true })
