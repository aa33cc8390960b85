-- ===== src/Tests.antt =====
-- The theorems at concrete inputs.
mod Logs
mod Target
mod Locks
mod Machine
mod Server
mod Host
mod Exit
mod Setup
mod Stream
mod Boot
mod Guest
mod Args
mod Start
mod Power
mod Copies
