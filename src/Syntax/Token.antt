-- ===== src/Syntax/Token.antt =====
-- syntax/lexer.go: token kinds, the keyword table, tokens and lexical errors.
use Prim.Native.String.{String}
use thrift_ls.Common.{
  ℕ, Bool, List, [], ◌∷◌, Option, none, some, Bytes, codes, bytes_eq, ◌==◌, ◌||◌, if◌then◌else◌,
}

-- `TokenKind`, in the order of the source's constants.
pub data TokenKind : Type 0 where
  invalid eof identifier int_constant double_constant string_literal : TokenKind
  include cpp_include cpp_type namespace struct union exception service enum const : TokenKind
  typedef oneway async throws extends required optional : TokenKind
  void bool byte i8 i16 i32 i64 double string binary slist uuid map list set true false : TokenKind
  lbrace rbrace lparen rparen lbracket rbracket lt gt comma semicolon colon equal star amp :
      TokenKind
  line_comment block_comment doc_comment at : TokenKind

-- `Token`
pub record Token : Type 0 where
  pub kind : TokenKind
  pub text : Bytes
  pub offset : ℕ
  pub line : ℕ
  pub col : ℕ
  pub blank_lines_before : ℕ

pub data Severity : Type 0 where
  error warning : Severity

-- What the formatted text of an error says: first the lexical errors, which quote a byte, then the
-- errors and warnings of the parser, which quote the text of a token.
pub data Message : Type 0 where
  unexpected_character : ℕ → Message
  unterminated_comment unterminated_string newline_in_string : Message
  invalid_escape : ℕ → Message
  -- `expected %s, got %q`, and `expected annotation value after %q, got %q`
  expected : String → Bytes → Message
  expected_value_after : Bytes → Bytes → Message
  unexpected_token : Bytes → Message
  not_scalar : Message
  -- a warning, by its text
  deprecated : String → Message

-- `Error`
pub record Error : Type 0 where
  pub message : Message
  pub offset : ℕ
  pub line : ℕ
  pub col : ℕ
  pub severity : Severity

-- `keywordKinds`
abbrev pub keyword_kinds : List (String × TokenKind)
keyword_kinds =
    ("include", TokenKind.include)
    ∷ ("cpp_include", TokenKind.cpp_include)
    ∷ ("cpp_type", TokenKind.cpp_type)
    ∷ ("namespace", TokenKind.namespace)
    ∷ ("struct", TokenKind.struct)
    ∷ ("union", TokenKind.union)
    ∷ ("exception", TokenKind.exception)
    ∷ ("service", TokenKind.service)
    ∷ ("enum", TokenKind.enum)
    ∷ ("const", TokenKind.const)
    ∷ ("typedef", TokenKind.typedef)
    ∷ ("oneway", TokenKind.oneway)
    ∷ ("async", TokenKind.async)
    ∷ ("throws", TokenKind.throws)
    ∷ ("extends", TokenKind.extends)
    ∷ ("required", TokenKind.required)
    ∷ ("optional", TokenKind.optional)
    ∷ ("void", TokenKind.void)
    ∷ ("bool", TokenKind.bool)
    ∷ ("byte", TokenKind.byte)
    ∷ ("i8", TokenKind.i8)
    ∷ ("i16", TokenKind.i16)
    ∷ ("i32", TokenKind.i32)
    ∷ ("i64", TokenKind.i64)
    ∷ ("double", TokenKind.double)
    ∷ ("string", TokenKind.string)
    ∷ ("binary", TokenKind.binary)
    ∷ ("slist", TokenKind.slist)
    ∷ ("uuid", TokenKind.uuid)
    ∷ ("map", TokenKind.map)
    ∷ ("list", TokenKind.list)
    ∷ ("set", TokenKind.set)
    ∷ ("true", TokenKind.true)
    ∷ ("false", TokenKind.false)
    ∷ []

unfoldable pub lookup_keyword : Bytes → List (String × TokenKind) → Option TokenKind
lookup_keyword text [] = none
lookup_keyword text ((name, kind) ∷ table) =
    if bytes_eq text (codes name) then some kind else lookup_keyword text table

-- `keywordKinds[text]`
unfoldable pub keyword_kind : Bytes → Option TokenKind
unfolding lookup_keyword bytes_eq
keyword_kind text = lookup_keyword text keyword_kinds

-- `IsComment`
unfoldable pub is_comment : TokenKind → Bool
is_comment TokenKind.line_comment = Bool.true
is_comment TokenKind.block_comment = Bool.true
is_comment TokenKind.doc_comment = Bool.true
is_comment _ = Bool.false

-- `IsTypeKeyword`
unfoldable pub is_type_keyword : TokenKind → Bool
is_type_keyword TokenKind.map = Bool.true
is_type_keyword TokenKind.list = Bool.true
is_type_keyword TokenKind.set = Bool.true
is_type_keyword TokenKind.void = Bool.true
is_type_keyword TokenKind.bool = Bool.true
is_type_keyword TokenKind.byte = Bool.true
is_type_keyword TokenKind.i8 = Bool.true
is_type_keyword TokenKind.i16 = Bool.true
is_type_keyword TokenKind.i32 = Bool.true
is_type_keyword TokenKind.i64 = Bool.true
is_type_keyword TokenKind.double = Bool.true
is_type_keyword TokenKind.string = Bool.true
is_type_keyword TokenKind.binary = Bool.true
is_type_keyword TokenKind.slist = Bool.true
is_type_keyword TokenKind.uuid = Bool.true
is_type_keyword _ = Bool.false

-- `symbolKinds[c]`
unfoldable pub symbol_kind : ℕ → Option TokenKind
symbol_kind c =
    if c == b'{'
    then some TokenKind.lbrace
    else if c == b'}'
    then some TokenKind.rbrace
    else if c == b'('
    then some TokenKind.lparen
    else if c == b')'
    then some TokenKind.rparen
    else if c == b'['
    then some TokenKind.lbracket
    else if c == b']'
    then some TokenKind.rbracket
    else if c == b'<'
    then some TokenKind.lt
    else if c == b'>'
    then some TokenKind.gt
    else if c == b','
    then some TokenKind.comma
    else if c == b';'
    then some TokenKind.semicolon
    else if c == b':'
    then some TokenKind.colon
    else if c == b'='
    then some TokenKind.equal
    else if c == b'@'
    then some TokenKind.at
    else none

-- The constants of `TokenKind`, by their place among its constructors.
unfoldable pub kind_code : TokenKind → ℕ
kind_code TokenKind.invalid = 0
kind_code TokenKind.eof = 1
kind_code TokenKind.identifier = 2
kind_code TokenKind.int_constant = 3
kind_code TokenKind.double_constant = 4
kind_code TokenKind.string_literal = 5
kind_code TokenKind.include = 6
kind_code TokenKind.cpp_include = 7
kind_code TokenKind.cpp_type = 8
kind_code TokenKind.namespace = 9
kind_code TokenKind.struct = 10
kind_code TokenKind.union = 11
kind_code TokenKind.exception = 12
kind_code TokenKind.service = 13
kind_code TokenKind.enum = 14
kind_code TokenKind.const = 15
kind_code TokenKind.typedef = 16
kind_code TokenKind.oneway = 17
kind_code TokenKind.async = 18
kind_code TokenKind.throws = 19
kind_code TokenKind.extends = 20
kind_code TokenKind.required = 21
kind_code TokenKind.optional = 22
kind_code TokenKind.void = 23
kind_code TokenKind.bool = 24
kind_code TokenKind.byte = 25
kind_code TokenKind.i8 = 26
kind_code TokenKind.i16 = 27
kind_code TokenKind.i32 = 28
kind_code TokenKind.i64 = 29
kind_code TokenKind.double = 30
kind_code TokenKind.string = 31
kind_code TokenKind.binary = 32
kind_code TokenKind.slist = 33
kind_code TokenKind.uuid = 34
kind_code TokenKind.map = 35
kind_code TokenKind.list = 36
kind_code TokenKind.set = 37
kind_code TokenKind.true = 38
kind_code TokenKind.false = 39
kind_code TokenKind.lbrace = 40
kind_code TokenKind.rbrace = 41
kind_code TokenKind.lparen = 42
kind_code TokenKind.rparen = 43
kind_code TokenKind.lbracket = 44
kind_code TokenKind.rbracket = 45
kind_code TokenKind.lt = 46
kind_code TokenKind.gt = 47
kind_code TokenKind.comma = 48
kind_code TokenKind.semicolon = 49
kind_code TokenKind.colon = 50
kind_code TokenKind.equal = 51
kind_code TokenKind.star = 52
kind_code TokenKind.amp = 53
kind_code TokenKind.line_comment = 54
kind_code TokenKind.block_comment = 55
kind_code TokenKind.doc_comment = 56
kind_code TokenKind.at = 57

-- `==` of kinds
unfoldable pub is_kind : TokenKind → TokenKind → Bool
unfolding kind_code
is_kind k l = kind_code k == kind_code l

-- `keywordNames[k]` is there
unfoldable pub in_table : TokenKind → List (String × TokenKind) → Bool
unfolding is_kind
in_table k [] = Bool.false
in_table k ((name, kind) ∷ table) = is_kind k kind || in_table k table

-- `IsKeyword`
unfoldable pub is_keyword : TokenKind → Bool
unfolding in_table
is_keyword k = in_table k keyword_kinds
