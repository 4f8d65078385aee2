-- ===== src/Server/System.antt =====
-- The server as a whole: which io each pending operation owns, over any sequence of completions.
pub mod Safe
pub mod Owned
pub mod Sound
pub mod Posts
pub mod Accepts
pub mod Tame
pub mod Receives
pub mod Taken
pub mod Rounds
pub mod Completed
pub mod Starts
