-- ===== src/Vm/Values.antt =====
-- internal/vm/value.go and vm.go: the operations on values, whose names are passed on from the
-- modules below: operators, indexing, ranges and iterators.
mod Operators
mod Index
mod Iterate
unfoldable pub use Operators.*
unfoldable pub use Index.*
unfoldable pub use Iterate.*
