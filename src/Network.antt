-- ===== src/Network.antt =====
-- include/bc/network and main.cpp: addresses, sockets, the server with its session, and the client.
pub mod Chars
pub mod Address
pub mod Socket
pub mod Awaiters
pub mod Server
pub mod Echo
pub mod Client
pub mod Tests
