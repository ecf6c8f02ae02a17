-- ===== src/Sema/Diagnostic.antt =====
-- sema/sema.go, sema/codes.go, sema/span.go: the diagnostics of the analyses.
use thrift_ls.Common.{Option, some, List, Bytes, ◌>>=◌}
use thrift_ls.Mapper.{Position}
use thrift_ls.Sema.Edit.{Fix}
use thrift_ls.Syntax.Position.{token_start, token_end, node_range}
use thrift_ls.Syntax.Token.{Token}
use thrift_ls.Syntax.Tree.{NodeBase, Document}

-- `Span`
pub record Span : Type 0 where
  pub start : Position
  pub end : Position

-- The codes of the diagnostics that are modelled.
pub data Code : Type 0 where
  field_id_range field_id_conflict duplicate_definition duplicate_enum_value implicit_enum_value :
      Code

-- `Severity`
pub data DiagnosticSeverity : Type 0 where
  severity_error severity_warning severity_info severity_hint : DiagnosticSeverity

-- `Diagnostic`
pub record Diagnostic : Type 0 where
  pub code : Code
  pub severity : DiagnosticSeverity
  pub message : Bytes
  pub span : Span
  pub fixes : List Fix

-- `TokenSpan` of a token that is not nil
unfoldable pub token_span : Token → Span
unfolding token_end
token_span t = record { start = token_start t; end = token_end t }

-- `SpanOf`
unfoldable pub span_of : Document → NodeBase → Option Span
unfolding node_range
span_of d n = node_range d n >>= λ (s, e). some (record { start = s; end = e })
