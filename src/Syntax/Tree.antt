-- ===== src/Syntax/Tree.antt =====
-- syntax/ast.go: the tree that the parser produces. A pointer that may be nil is an `Option`; a list of nodes
-- inside a node of its own type is a data type of the block.
use thrift_ls.Common.{ℕ, Bool, List, Option, Bytes}
use thrift_ls.Syntax.Token.{Token, TokenKind}

-- `nodeBase`: the indices of the first and of the last token
pub record NodeBase : Type 0 where
  pub first : ℕ
  pub last : ℕ

pub record Identifier : Type 0 where
  pub base : NodeBase
  pub text : Bytes

-- `ConstValueKind` of the scalar values
pub data ScalarKind : Type 0 where
  value_int value_double value_string value_ident : ScalarKind

mutual
  -- `ConstValue`: a scalar with its text, `ValueList` and `ValueMap`
  pub data ConstValue : Type 0 where
    scalar : NodeBase → ScalarKind → Bytes → ConstValue
    value_list : NodeBase → ConstValues → ConstValue
    value_map : NodeBase → ConstMapEntries → ConstValue

  pub data ConstValues : Type 0 where
    no_values : ConstValues
    value : ConstValue → ConstValues → ConstValues

  -- `[]ConstMapEntry`
  pub data ConstMapEntries : Type 0 where
    no_entries : ConstMapEntries
    entry : ConstValue → ConstValue → ConstMapEntries → ConstMapEntries

pub record Annotation : Type 0 where
  pub base : NodeBase
  pub name : Identifier
  pub value : Option Token
  pub sep : TokenKind

pub record Annotations : Type 0 where
  pub base : NodeBase
  pub items : List Annotation

pub record StructuredAnnotation : Type 0 where
  pub base : NodeBase
  pub name : Identifier
  pub value : Option ConstValue

-- `FieldTypeKind` of the containers
pub data ContainerKind : Type 0 where
  type_map type_list type_set : ContainerKind

mutual
  -- `FieldType`: `TypeBase` with the kind of its keyword, `TypeIdent`, and the containers with `KeyType`,
  -- `ValueType` and `CPPType`
  pub data FieldType : Type 0 where
    type_base : NodeBase → TokenKind → Option Annotations → FieldType
    type_ident : NodeBase → Identifier → FieldType
    type_container :
        NodeBase
        → ContainerKind
        → MaybeType
        → MaybeType
        → Option Token
        → Option Annotations
        → FieldType

  -- A type that may be nil.
  pub data MaybeType : Type 0 where
    no_type : MaybeType
    a_type : FieldType → MaybeType

pub record EnumValue : Type 0 where
  pub base : NodeBase
  pub name : Identifier
  pub value : Option Token
  pub annotations : Option Annotations
  pub sep : TokenKind

pub record Field : Type 0 where
  pub base : NodeBase
  pub field_id : Option Token
  pub req : Option Token
  pub type : FieldType
  pub reference : Bool
  pub name : Identifier
  pub value : Option ConstValue
  pub annotations : Option Annotations
  pub structured : List StructuredAnnotation
  pub sep : TokenKind

pub record Throws : Type 0 where
  pub base : NodeBase
  pub fields : List Field

-- `Function`: the type is none where `Void` is set.
pub record Function : Type 0 where
  pub base : NodeBase
  pub oneway : Option Token
  pub void : Option Token
  pub type : Option FieldType
  pub name : Identifier
  pub args : List Field
  pub throws : Option Throws
  pub annotations : Option Annotations
  pub structured : List StructuredAnnotation
  pub sep : TokenKind

-- What the definitions of a document hold besides their range: `Include`, `CPPInclude`, `Namespace`,
-- `Const`, `Typedef`, `Enum`, `Struct` and `Service`.
pub data Definition : Type 0 where
  include cpp_include : Token → Definition
  namespace : Token → Identifier → Option Annotations → Definition
  const : FieldType → Identifier → ConstValue → TokenKind → Definition
  typedef : FieldType → Identifier → Option Annotations → TokenKind → Definition
  enum : Identifier → List EnumValue → Option Annotations → Definition
  struct : TokenKind → Identifier → List Field → Option Annotations → Definition
  service : Identifier → Option Identifier → List Function → Option Annotations → Definition

-- A node of a document, with `Structured`.
pub record Node : Type 0 where
  pub base : NodeBase
  pub structured : List StructuredAnnotation
  pub definition : Definition

-- `Document`
pub record Document : Type 0 where
  pub tokens : List Token
  pub nodes : List Node
