-- ===== src/Utils.antt =====
-- pkg/utils: files, ports, processes and the time zone.
pub mod Files
pub mod Port
pub mod Accept
