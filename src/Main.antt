-- ===== src/Main.antt =====
-- main.go: the configuration, the time from NTP servers, and the loop that accepts connections.
pub mod Config
pub mod Accept
mod Tests
