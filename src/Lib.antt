-- ===== src/Lib.antt =====
-- A model of thrift-ls, a Thrift language server, formatter and linter, with proofs of its core.
--
-- Parts and files:
-- * syntax/lexer.go, the lossless lexer, is the tree Syntax. Syntax/Token has the token kinds, the
--   keyword and symbol tables, tokens and errors; Syntax/Chars the classes of bytes; Syntax/Cursor
--   the lexer's place (`srcPos` with the unread bytes) and `advanceByte`, `advanceRune`, `peekByte`;
--   Syntax/Number `matchHex`, `matchInt`, `matchDouble`; Syntax/Lexer the scanning methods and `Lex`,
--   one function for each method, its loops as functions of their own. The children prove:
--   Cursor/Reads, Cursor/Text and Cursor/Lines what reading on from a cursor does; Lexer/Spaces,
--   Lexer/Comments, Lexer/Words, Lexer/Strings, Lexer/Trivia, Lexer/Tokens and Lexer/Run what each
--   method reads; Lexer/Layout and Lexer/Lossless what `Lex` promises.
-- * syntax/ast.go is Syntax/Tree, and syntax/parser.go is Syntax/Parser. Parser/State has the place of the
--   parser in its tokens and its helpers, Parser/Values, Parser/Annotations, Parser/Types, Parser/Fields
--   and Parser/Definitions the recursive descent, Parser itself `parseDocument`, `ParseTokens` and
--   `Parse`, which sorts the errors of the lexer and of the parser. Their children prove: State/Sealed,
--   State/Moves, State/Steps and State/Rules how the helpers move, each Ends that a group of functions returns, Definitions/Built and
--   Parser/Layout the range of each node, Parser/Nodes and Parser/Whole how the nodes lie in a document,
--   Parser/Errors what the sort does.
-- * doc/ (doc.go, print.go, width.go), the document algebra and its printer, is the tree Doc. Doc has
--   the documents; a group carries an address, and the flags of the groups are a function of the
--   addresses, since printing writes to shared groups. Doc/Breaks is `propagateBreaks`, Doc/Printer
--   the state, Doc/Fits `fits`, Doc/Run `printGroup`, `run` and `Print`. Doc/Tidy says which documents
--   and outputs are tidy. The children of Breaks, Fits and Run prove what the loops keep: Breaks/Groups,
--   Breaks/Walked and Breaks/Forced which groups break, Fits/Total, Run/Left,
--   Run/Groups and Run/Total that they end, Run/Clean and Run/Output what `Print` returns.
-- * sema/edit.go, which applies fixes, is Sema/Edit, with its loops as functions. Its children prove:
--   Order what the sorts do, Splice what replacing from the back does, Count that lists hold the same
--   elements, Accept and Chosen what the two loops choose, Applied and Errors what `Apply` returns.
-- * sema/enum.go is Sema/Enum, and Sema/Enum/Filled proves what writing values out leaves as it is.
--   Sema/Diagnostic has the diagnostics and their spans (sema/sema.go), Syntax/Position the places of tokens and
--   nodes (syntax/position.go), Syntax/Accessors the definitions by kind (syntax/accessors.go).
-- * analyzers/ is Analyzers. Analyzers/Duplicate is duplicate_check.go, and its child Exact proves what
--   is reported. Analyzers/FieldId is fieldid_check.go. Its children prove: Collected what the loop over the
--   fields collects, Places and Due what stands at a place, Exact what the sorted result is.
--   Analyzers/EnumValue is enum_value_check.go; its child Edits has what the edits of its fixes make of an enum,
--   and Fixed proves what the check says of that enum.
-- * lsp/source/semantic.go is Lsp: Lsp/TokenFacts has the names and types of a document, Lsp/Semantic the tokens
--   as numbers. TokenFacts/Types proves what types names have, Semantic/Encoded what types the numbers have.
-- * store/view.go is the tree Store. Store/Graph has the include graph and its operations, Store/View the
--   view with `Parse`, `Update` and `Evict`; a parse is one step, or a read and a commit with any steps of
--   others between them. The children prove: Graph/Keys and Graph/Counts what is in the lists,
--   Graph/Mirrored that the two directions agree, Graph/Reach and Graph/Dependents what `Dependents` finds,
--   View/Steps the reachable states, View/Invalidated, View/Resolved and View/Refreshed what the
--   includes of the files are after `Update`, View/Affected what it returns. Store/Index is store/index.go,
--   the index of a file; Index/Same and Index/Bound prove what its names are bound to.
-- * mapper/mapper.go, positions of the protocol, is Mapper. Its children prove: Lines and Starts what the
--   starts of the lines say of a content, Crlf how `lineEnd` leaves a line end out, Places, Columns and RoundTrip what the conversions give.
-- * Strconv is what the program uses of strconv; Strconv/RoundTrip that it reads what it writes.
-- * Utf8 is what the program uses of Go's unicode/utf8, invalid input included.
-- * Common has shared names, Boolean tests, lists over native numbers, integers, a stable sort, and `Returns`,
--   which says of a fuelled loop that it returns a result with a property.
--
-- Bytes, offsets, lines and columns are natural numbers (Go's `int`, which no source text fills). A
-- loop of the lexer gets one unit of fuel more than there are bytes left, and each round reads one. The
-- loops of the printer get the weight of the documents that they are given, and each round takes
-- one apart. Widths and offsets that may be negative are integers, of Common/Int.
--
-- `Dependents` gets one unit more than the graph has edges, since each edge queues one file at most.
--
-- Parameters stand for the Unicode tables that the width of a rune is looked up in, for the content of
-- files, for the resolution of include paths, and for the order in which a loop meets the entries of a map.
-- The arena and the pool of printers are not modelled, since they only save allocations; nor are the edits
-- of mapper/apply.go, the formatter, the other analyses, the rest of the store and of the server.
-- formatter/diff.go is a copy of Go's diff package.
pub mod Common
pub mod Strconv
pub mod Utf8
pub mod Doc
pub mod Mapper
pub mod Sema
pub mod Store
pub mod Syntax
pub mod Analyzers
pub mod Lsp
