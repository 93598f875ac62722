-- ===== src/Transport.antt =====
-- internal/transport: the one network path of the bridge.
pub mod Limit
pub mod Hosts
pub mod Ip
pub mod Dial
