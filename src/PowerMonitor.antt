-- ===== src/PowerMonitor.antt =====
-- pkg/powermonitor: what happens when the host sleeps and wakes, and how the guest's clock is set.
pub mod Activity
pub mod TimeSync
pub mod SyncLoop
pub mod Tasks
