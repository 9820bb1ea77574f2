-- ===== src/Vm/Exec.antt =====
-- internal/vm/vm.go: what each instruction does.
pub mod Basics
pub mod Containers
pub mod Control
pub mod Builtins
pub mod Switch
