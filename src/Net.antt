-- ===== src/Net.antt =====
-- src/net: the network stack. The files hold one C file each, and Stack ties them together.
pub mod Bytes
pub mod State
pub mod Core
pub mod Ethernet
pub mod Ipv4
pub mod Udp
pub mod Tcp
pub mod Stack
pub mod Ping
mod Tests
