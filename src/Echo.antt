-- ===== src/Echo.antt =====
-- libevent: a server that sends every line back, and a client that sends one.
pub mod Evbuffer
pub mod Server
pub mod Client
pub mod Lines
pub mod Serve
pub mod Clients
pub mod Limits
pub mod Talk
pub mod Startup
mod Examples
