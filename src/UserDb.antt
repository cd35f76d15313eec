-- ===== src/UserDb.antt =====
-- The user database of userdb.go: its records, its files, and its public operations.
pub mod Model
pub mod Disk
pub mod Op
pub mod Names
pub mod Record
pub mod Open
pub mod Fetch
pub mod Cached
pub mod Users
pub mod Input
pub mod Aliases
pub mod Groups
pub mod Temp
