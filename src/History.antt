-- ===== src/History.antt =====
-- internal/history: the acknowledgement window, the caps and the splitting into batches.
pub mod Window
pub mod Caps
pub mod Split
