-- ===== src/Vm/Limit.antt =====
-- The instruction limit, and what an instruction keeps of the machine's counters.
pub mod Keeps
pub mod Frames
pub mod Rounds
pub mod Termination
