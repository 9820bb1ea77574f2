-- ===== src/Lib.antt =====
-- go-flux: a small scripting language with a lexer, a parser, a compiler to bytecode and a stack
-- machine. This library models these four parts and the host's interface to them, and proves what
-- makes them correct.
--
-- The parts and the files that model them:
--   internal/token/token.go: Token. Token types, positions, keywords (LookupIdent is lookup_ident).
--   internal/lexer/lexer.go: Lexer. Lexer/State has the state and readChar, Lexer/Scan the routines
--     that skip blanks and comments and read names, numbers and strings, Lexer/Next the switch and
--     the loop of NextToken (next_token). The state is the input not yet read, the position and the
--     byte at hand, the depths of parentheses and brackets and the last token's type. Lexer/Advance,
--     Ends, Progress, Stream, Positions, Anchors, Places, Newlines and Strings hold the proofs.
--   internal/ast/ast.go: Ast. The syntax tree, each node with the line that the compiler records.
--   internal/parser/parser.go: Parser. Parser/State has the state, the errors and the routines that
--     read one token, Parser/Pieces the precedences, bindings, parameters and keys, Parser/Parse the
--     recursive descent (parseExpression is parse_expression, its switches parse_operand and
--     parse_operator), Parser/Program New and ParseProgram. Parser/Printer makes tokens of an
--     expression, and Parser/Shapes, Source, Operators, Reading and RoundTrip relate them to what the
--     parser reads; Parser/Listing, StatementSteps, Boundaries and Statements do so for statements
--     and programs. Function and object literals and empty arrays are not printed. Parser/Stuck is
--     about statements that lack what their keyword needs; Parser/Clean, Sound, Trees and Safety are
--     about errors and the trees that come with them.
--   internal/bytecode/opcode.go, chunk.go and internal/runtime/builtins.go: Bytecode. Opcodes, chunks
--     and prototypes, and the table of the built-in operations.
--   internal/bytecode/disasm.go and internal/vm/disasm.go: Bytecode/Lines has the look-up of lines,
--     Bytecode/Disasm operands and constants as text, Bytecode/Listing the listing of a prototype,
--     Vm/Disassemble that of a machine. Bytecode/Total and Vm/Reading hold the proofs.
--   internal/compiler/scope.go, compiler.go, builtins.go: Compiler. Compiler/Scope has the scopes,
--     Compiler/Emit the state of a function's compilation and the emission of code, Compiler/Pieces
--     what a node does beside its children, Compiler/Compile the recursion over the tree (compileExpr,
--     compileBlock, compileIf, compileWhile, compileForIn and Compile). Compiler/Operands relates what
--     is emitted to what the machine reads, Compiler/Captures a captured name to its variable,
--     Compiler/Lines emitted code to its line.
--   internal/vm/value.go, upvalue.go, vm.go, builtins.go and internal/builtins: Vm. Vm/State has values,
--     the heap and the machine, Vm/Values the operations on values, Vm/Upvalues captured variables,
--     Vm/Frames frames and operands, Vm/Exec the instructions, Vm/Run the loop of Run and the host's
--     operations. Vm/Sharing, Closing, Containers, Ranges, Calls, Equality, Globals and Limit
--     hold the proofs.
--   internal/vm/diagnostics.go: Vm/Diagnostics. Places, stack traces and the text of errors.
--   internal/vm/duplicate.go: Vm/Duplicate. The copy of a machine (duplicate), on fuel. Its child
--     modules hold the proofs: Invariant has regions of the heap and what holds while cells are
--     cloned, Cells the reads, Writes the writes, Copied and Copies when a cell's clone is a copy of
--     it, Copying and Rewriting how that holds of new clones and writes, Loops the loops, Parts,
--     Closures and Kinds the routines, Isolation the copy itself.
--   internal/vm/export.go: Vm/Export. RuntimeErrorf.
--   api.go: Api. Api/Errors has RuntimeError and convertRuntimeError, Api/Values VmValue, HostArgs and
--     the handles, Api/Marshal Go values (GoValue, by the cases of marshalGoValueWithOpts), their way
--     into the machine (marshal) and out of it (unmarshal_to_go), Api/Unmarshal targets with their
--     types and assignValue (assign_value). Api/Plain, Marshals and RoundTrip, and Api/Types,
--     Storable and Restore hold the proofs. Api/Calls has CallAsync and Await as steps of goroutines
--     (Step) on the machine with its busy flag (HostVm), and Api/Guard and Exclusive the proofs.
--   api.go: Load. LoadSource of a machine that is there (load_source): the parser, the compiler and
--     LoadModule one after the other, and their errors. Load/Outcomes has the proofs.
--   Tests runs programs and applies the theorems at concrete inputs.
--
-- How they interact: the parser takes its tokens from a source, NextToken, which is a parameter of its
-- model, and gives a tree, with a nil node (no_expr) where it has reported an error; the compiler takes
-- a tree and gives prototypes; LoadModule makes them functions among the machine's globals; Run executes
-- a function with its frames, stack and heap. The host puts its values into the machine's heap, takes
-- results out of it, and calls a function while no other call of that machine is busy.
--
-- Conventions. A byte and a number of Go are natural numbers; `byte`, `uint16` and `hi_byte` write the
-- conversions out that cut a number. A number of the language is the bit pattern of a float64: its
-- arithmetic, its conversions and its printing are a record of functions (`Platform`), a parameter, as
-- are strconv.ParseFloat and the native functions. Slices, maps, iterators and upvalues that Go shares
-- by pointer are cells of a heap, so that writing through one reference is seen through the others.
-- Errors are values: `Fault` has one constructor for each message. A Go panic, for an operand that is
-- not in the code, is a stop of its own.
--
-- Fuel. The loops of the lexer run on the bytes left and two more: each of their rounds reads a
-- byte, and a loop stops at the end of the input. The parser is on fuel
-- too, one unit for each call: its loops have no measure, since a statement may leave it where it
-- was. The loop of the machine is on fuel that its caller
-- gives: a machine without an instruction limit may run for ever, and under a limit each round either
-- counts an instruction, which calls one function at most, or ends a frame.
-- Duplicate spends a unit for each value that it goes down into, and goes into a cell once. Raw
-- spends one for each part of a value on the way down; a value of the machine that holds itself has no
-- end for it.
--
-- What fmt, strconv and sort.Strings do for the disassembler is a parameter too, as is the equality of
-- pointers to prototypes.
--
-- Not modelled: in the run loop, the calls of the trace hook and the place that an error carries
-- (Vm/Diagnostics has what these are), and the stack limit that the machine
-- declares and never checks. A frame that has popped values of its caller, which reslicing in Go would
-- bring back, ends the run at the border of the model (`stale`). Of api.go: Go functions as values of
-- the machine and their attachment (VmFunction, vmFunctionFromFunc, AttachFunction), which rest on
-- reflection, the calls made through a handle, and LoadFile, which reads a file. Go types are
-- not part of Go values but for what the switches of marshaling tell apart, and for what targets say.
-- A range is not too long for Go to allocate it, and its ends do not leave int.
pub mod Base
pub mod Token
pub mod Lexer
pub mod Ast
pub mod Parser
pub mod Bytecode
pub mod Compiler
pub mod Vm
pub mod Load
pub mod Api
mod Tests
