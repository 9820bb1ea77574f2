-- ===== src/Parser.antt =====
-- internal/parser/parser.go: the parser's state, the pieces that read tokens without recursion, and
-- the recursive descent over expressions and statements.
pub mod State
pub mod Pieces
pub mod Parse
pub mod Program
pub mod Steps
pub mod Stuck
pub mod Clean
pub mod Sound
pub mod Trees
pub mod Safety
pub mod Printer
pub mod Source
pub mod Operators
pub mod Shapes
pub mod Reading
pub mod RoundTrip
pub mod Listing
pub mod StatementSteps
pub mod Boundaries
pub mod Statements
