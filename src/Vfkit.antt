-- ===== src/Vfkit.antt =====
-- pkg/vfkit: the machine, its mounts, its kernel command line, its ports, and its end.
pub mod Mounts
pub mod KernelCmd
pub mod Config
pub mod State
pub mod Watch
pub mod Ignition
pub mod Run
pub mod Vsock
