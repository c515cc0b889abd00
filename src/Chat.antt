-- ===== src/Chat.antt =====
-- epoll_simple_chat_server: a server that pairs telnet clients by their descriptors.
pub mod Network
pub mod Process
pub mod Loop
pub mod Setup
mod Examples
