-- ===== src/Server.antt =====
-- server/src/main.c: the user-mode server, which answers the commands of one client at a time.
pub mod State
pub mod Protocol
pub mod Handlers
pub mod Loop
pub mod Connections
pub mod Transfer
pub mod Receive
pub mod Steps
pub mod Sectors
pub mod Clusters
pub mod Session
pub mod Safety
pub mod Ready
pub mod Wire
pub mod Setup
pub mod Teardown
pub mod Answers
pub mod Sockets
