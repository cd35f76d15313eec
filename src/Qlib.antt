-- ===== src/Qlib.antt =====
-- qlib/qlib.go: the server's messages, its links to clients, and who is told of whom.
pub mod Int
pub mod Header
pub mod Quit
pub mod Op
pub mod Stream
pub mod Frame
pub mod Presence
pub mod Elastic
pub mod Store
pub mod Openid
pub mod Ping
pub mod Server
pub mod Stable
pub mod Queue
pub mod Auth
pub mod Nodes
pub mod Post
pub mod Handle
pub mod Link
pub mod System
pub mod Samples
