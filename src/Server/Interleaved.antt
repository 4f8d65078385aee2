-- ===== src/Server/Interleaved.antt =====
-- The handlers at the grain of single accesses and system calls, and threads that run them at the
-- same time, interleaved in any order.
pub mod Steps
pub mod Handlers
pub mod Does
pub mod Pool
pub mod Own
pub mod Kept
pub mod Claims
pub mod Rules
pub mod Calls
pub mod Starts
pub mod Handles
pub mod Posts
pub mod Accepts
pub mod Built
pub mod Receives
pub mod Rounds
pub mod Takes
pub mod Completions
pub mod Good
pub mod Moves
pub mod Safety
pub mod Finite
pub mod Ends
pub mod Started
