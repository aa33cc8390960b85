-- ===== src/Cli.antt =====
-- pkg/cli: the command line, the context that is set up from it, and the files of the machine.
pub mod Flags
pub mod Args
pub mod Shares
pub mod Versions
pub mod Sockets
pub mod Keys
pub mod Setup
pub mod Target
