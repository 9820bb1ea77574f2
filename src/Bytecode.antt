-- ===== src/Bytecode.antt =====
-- internal/bytecode: opcodes, chunks and prototypes, and the table of built-in operations that
-- internal/runtime and the packages below internal/builtins fill when the program starts.
pub mod Opcode
pub mod Chunk
pub mod Builtins
pub mod Lines
pub mod Disasm
pub mod Listing
pub mod Total
