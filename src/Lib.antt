-- ===== src/Lib.antt =====
-- Verification library of Aument: a parser that compiles source text to bytecode in one pass, and a
-- virtual machine that runs the bytecode on tagged values.
--
-- The parts, in the order in which a program passes through them:
-- * Lexer (src/core/parser/lexer.c and lexer.h) cuts the source into tokens. Lexer/Scan has one
--   function for each branch of au_lexer_next_, on the bytes that are left; Lexer/Stream has the
--   lookahead slot, with au_lexer_next as `lexer_next` and au_lexer_peek as `lexer_peek`.
-- * Parser (src/core/parser/impl) emits bytecode while it reads tokens. Parser/Regs is the register
--   allocator regs.c, one function for each function there, on the fields of struct au_parser that
--   it uses. Parser/Operators is au_parser_exec_binary_expr of expr.c: the code of an operand, which
--   the other functions of expr.c make, is a parameter; Parser/Operators/Tree
--   describes the inputs as trees; Parser/Operators/Generate is
--   operator_info_generate, on the register allocator and the code buffer of bc.c; Parser/Logical is
--   au_parser_exec_logical_expr for `&&`, and Parser/Logical/Or for `||`, with the code of the right operand as a parameter;
--   Parser/Emit is the code buffer with its 16-bit operands.
--   Parser/State is struct au_parser as the statements see it: a handler is a function from a parser
--   to a result and a parser, in do blocks; the tokens that are ahead stand for the lexer, which
--   Lexer/Stream relates to them, and the entries of a scope for its hash table. Parser/Statements has
--   the statements of stmt.c that hold no other, Parser/Statements/Control those that do, and
--   Parser/Statements/Run au_parser_exec_statement and au_parser_exec of parser.c, where expressions
--   and declarations are parameters. Parser/Program is struct au_program_data with its functions and
--   classes, and Parser/Resolve au_parser_resolve_fn of resolve.c. Parser/Expressions is expr.c on the
--   parser of Parser/State: Calls, Assign, Index and Binary (operators around values), Literals, Values
--   and Objects; Run ties them together to au_parser_exec_expr. Parser/Declarations is import, public,
--   struct and func of stmt.c: Head finds the place of a function, Function parses it with a parser of
--   its own, and Run ties expressions, statements and declarations together to au_parser_exec and
--   au_parse. Parser/Expressions/Primitives says what a relation on parsers needs to be ensured by
--   every expression, Preserve that it then is, and Scoped and Linked are two such relations.
--   Parser/Statements/Control/Layout and the files beside it are about the code of if and while, also
--   on the machine of Vm; Parser/Statements/Scopes and its children are about variables.
-- * BitArray (src/core/bit_array.h) holds the allocator's sets of registers.
-- * Vm (src/core/vm/vm.c, with the arguments of a call in Vm/Args) runs one frame of bytecode: Vm/Step has one clause for each handler of
--   au_vm_exec_unverified, Vm/Values the operations that the handlers call, Vm/Reference the
--   specification, an interpreter that never rewrites its code. `locate_error` is
--   au_vm_locate_error of src/core/vm/exception.c.
-- * Value (src/core/rt/value/main.h, src/core/rt/au_string.h) is what the registers hold: the tagged
--   representation in Value, Value/Ops and Value/Compare, the NaN-tagged one in Value/Nan.
-- * Rt/Heap (src/core/rt/malloc/gc.c, src/core/rt/value/ref.h) has the list of objects with their counts
--   and marks, and the collector. An object carries what its del_fn does: the values that it
--   dereferences and the size of the data that it frees. Rt/Heap/Counts relates counts to
--   references; Rt/Heap/Marks, Collect, Roots and Garbage are about au_obj_malloc_collect.
-- * Rt/Array (src/core/rt/au_array.c, src/core/rt/au_tuple.c) reads, stores and pops the elements of
--   arrays and tuples, which are the values of an object of that heap.
-- * Word (src/platform/arithmetic.h) is 32-bit arithmetic: the operations that wrap around, and the
--   operators of C on int, which are undefined when they overflow.
-- * Utf8 (src/core/utf8.h) walks over and searches in texts, and Stdlib/Str (src/stdlib/str.c) has the
--   string functions of the standard library on top of it.
-- Prelude has the names that all parts share; Tests runs the code on concrete inputs.
--
-- Bytes are natural numbers and a text is the list of its bytes. A word of w bits is a natural number
-- below 2 ^ w. Double arithmetic is the parameter `Float`. An abort, a failed assertion or undefined
-- behaviour of C is `none`, and `aborted` for statements; but negation and the shift to the left lose the
-- bits that leave the word, as the compilers in use define them.
--
-- Bounds and fuel: `run` has fuel for the number of instructions, since a program may not end; with
-- no fuel left it gives the machine it has reached. `block_at`, `if_at`
-- and `program_loop` have fuel for the statements that follow or hold one another, and give `starved`
-- without it; a statement or an element of a list takes at least a token. So have `expr_at` and
-- `top_at`, for the expressions and functions inside each other and the turns of their loops, each of
-- which takes at least a token but the last. `exec_loop` has fuel for the turns of its loop:
-- one more than the operands and operators of the input is enough. `utf8_str`
-- and `points` have fuel for one turn per byte and one more. The scanner recurses on the text. `sweep`
-- has fuel for the objects of the list.
--
-- Not modelled: the handlers of calls, imports, containers, classes and function values, whose outcome
-- is `outside`, but for the reading of arguments; dictionaries and string builders, and of arrays and
-- tuples the making, the growth, and the insertion, which moves bytes; hash tables (hm_vars.c is an
-- adapted copy of another project); modules;
-- the rest of the standard library; the C compiler back end. Input and output, memory mapping and the
-- conversion of doubles from and to text (a copy of another project, the parameter `strtod`) are outside of what is modelled.
pub mod Prelude
pub mod Word
pub mod Value
pub mod Vm
pub mod BitArray
pub mod Lexer
pub mod Parser
pub mod Utf8
pub mod Rt
pub mod Stdlib
pub mod Tests
