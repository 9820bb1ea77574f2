-- ===== src/Api.antt =====
-- api.go: the host's side of the machine.
pub mod Errors
pub mod Values
pub mod Marshal
pub mod Plain
pub mod Marshals
pub mod RoundTrip
pub mod Unmarshal
pub mod Types
pub mod Storable
pub mod Restore
pub mod Calls
pub mod Guard
pub mod Exclusive
