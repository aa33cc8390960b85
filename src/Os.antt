-- ===== src/Os.antt =====
-- What the program asks of the operating system.
pub mod Outcome
pub mod Disk
pub mod Calls
pub mod Frame
pub mod Spares
pub mod View
pub mod Tasks
