-- ===== src/Protocol.antt =====
-- internal/protocol: what crosses the wire, and how commands are checked.
pub mod Events
pub mod Text
pub mod Commands
pub mod Validate
pub mod Surrogates
pub mod Fields
pub mod Lines
pub mod Ulid
pub mod Writer
