-- ===== src/Restful.antt =====
-- pkg/ipc/restful/restful.go: the server that other programs control the machine by.
pub mod Sse
pub mod Exec
pub mod Stream
pub mod Session
pub mod Routes
pub mod Server
