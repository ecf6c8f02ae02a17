-- ===== src/Syntax/Accessors.antt =====
-- syntax/accessors.go: the definitions of a document by their kinds, in the order of the document. A
-- definition is given by its name with what the analyses read of it.
use thrift_ls.Common.{List, [], ◌∷◌, ◌++◌, Option, none, some, if◌then◌else◌}
use thrift_ls.Syntax.Token.{TokenKind, is_kind}
use thrift_ls.Syntax.Tree.{
  Identifier, ConstValue, FieldType, EnumValue, Field, Function, Definition, Node, const, typedef,
  enum, struct, service,
}

module _ {ℓ} {A : Type ℓ} (pick : Definition → Option A) where
  unfoldable pub defined : List Node → List A
  defined [] = []
  defined (n ∷ ns) = elim (pick n.definition) [ none ↦ defined ns | some a ↦ a ∷ defined ns ]

as_struct : TokenKind → Definition → Option (Identifier × List Field)
unfolding is_kind
as_struct kind (struct k name fs annos) = if is_kind kind k then some (name, fs) else none
as_struct kind _ = none

as_enum : Definition → Option (Identifier × List EnumValue)
as_enum (enum name vs annos) = some (name, vs)
as_enum _ = none

as_service : Definition → Option (Identifier × List Function)
as_service (service name base fns annos) = some (name, fns)
as_service _ = none

as_const : Definition → Option (Identifier × FieldType × ConstValue)
as_const (const t name v sep) = some (name, t, v)
as_const _ = none

as_typedef : Definition → Option Identifier
as_typedef (typedef t name annos sep) = some name
as_typedef _ = none

-- `Structs`, `Unions` and `Exceptions`, by the kind
unfoldable pub structs : TokenKind → List Node → List (Identifier × List Field)
unfolding defined as_struct
structs kind = defined (as_struct kind)

-- `Enums`
unfoldable pub enums : List Node → List (Identifier × List EnumValue)
unfolding defined as_enum
enums = defined as_enum

-- `Services`
unfoldable pub services : List Node → List (Identifier × List Function)
unfolding defined as_service
services = defined as_service

-- `Consts`
unfoldable pub consts : List Node → List (Identifier × FieldType × ConstValue)
unfolding defined as_const
consts = defined as_const

-- `Typedefs`
unfoldable pub typedefs : List Node → List Identifier
unfolding defined as_typedef
typedefs = defined as_typedef

unfoldable pub fields_of : List (Identifier × List Field) → List (List Field)
fields_of [] = []
fields_of ((name, fs) ∷ ss) = fs ∷ fields_of ss

unfoldable pub function_lists : List Function → List (List Field)
function_lists [] = []
function_lists (f ∷ fs) =
    f.args ∷ elim f.throws [ none ↦ function_lists fs | some t ↦ t.fields ∷ function_lists fs ]

unfoldable pub service_lists : List (Identifier × List Function) → List (List Field)
unfolding function_lists
service_lists [] = []
service_lists ((name, fns) ∷ ss) = function_lists fns ++ service_lists ss

-- `WalkFieldLists`: the lists that the function is called with, in their order
unfoldable pub field_lists : List Node → List (List Field)
unfolding structs services fields_of service_lists
field_lists ns =
    fields_of (structs TokenKind.struct ns)
    ++ (fields_of (structs TokenKind.union ns)
        ++ (fields_of (structs TokenKind.exception ns) ++ service_lists (services ns)))
