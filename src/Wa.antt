-- ===== src/Wa.antt =====
-- internal/wa: the bridge itself.
pub mod Backstop
pub mod Lru
pub mod Send
pub mod MarkRead
pub mod Lifecycle
pub mod Steps
pub mod Live
pub mod Delivery
pub mod Fetch
