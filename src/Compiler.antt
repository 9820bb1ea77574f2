-- ===== src/Compiler.antt =====
-- internal/compiler: scopes, the emission of bytecode, and the compilation of the syntax tree.
pub mod Scope
pub mod Emit
pub mod Pieces
pub mod Compile
pub mod Operands
pub mod Captures
pub mod Lines
