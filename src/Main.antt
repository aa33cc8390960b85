-- ===== src/Main.antt =====
-- cmd/ovm: the single instance, the process that the program is bound to, and the start.
pub mod SingleInstance
pub mod Start
pub mod Boot
pub mod BindPid
pub mod Network
pub mod PowerMode
pub mod Serving
pub mod Shutdown
