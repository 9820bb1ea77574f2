-- ===== src/Lexer.antt =====
-- internal/lexer/lexer.go: the lexer's state, its scanning routines, and `NextToken`.
pub mod State
pub mod Scan
pub mod Next
pub mod Advance
pub mod Ends
pub mod Progress
pub mod Stream
pub mod Positions
pub mod Anchors
pub mod Places
pub mod Newlines
pub mod Strings
