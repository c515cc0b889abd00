-- ===== src/Httpd.antt =====
-- tinyhttpd/httpd.c: a web server that handles one connection at a time.
pub mod Fault
pub mod Line
pub mod Request
pub mod Conn
pub mod Reply
pub mod File
pub mod Headers
pub mod Cat
pub mod Cgi
pub mod Server
pub mod Startup
mod Site
mod Tests
mod Examples
mod PartExamples
mod StartExamples
