-- ===== src/Vm.antt =====
-- internal/vm: values and the machine's state, operations on values, upvalues, frames, the
-- instructions, and the loop of `Run`.
pub mod State
pub mod Values
pub mod Upvalues
pub mod Frames
pub mod Exec
pub mod Run
pub mod Limit
pub mod Sharing
pub mod Closing
pub mod Containers
pub mod Ranges
pub mod Calls
pub mod Equality
pub mod Globals
pub mod Diagnostics
pub mod Disassemble
pub mod Reading
pub mod Duplicate
pub mod Export
