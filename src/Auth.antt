-- ===== src/Auth.antt =====
-- protobufTest: a client that logs in at the auth server and takes its code to the game server.
pub mod Packet
pub mod Database
pub mod Round
pub mod Server
pub mod Game
pub mod Client
pub mod Table
pub mod Login
pub mod Arrays
pub mod Session
pub mod Startup
pub mod World
pub mod Repeats
pub mod Users
mod Toy
mod Examples
