-- ===== src/Media.antt =====
-- internal/media: the hand-off files of media, and what is read from them.
pub mod Ogg
pub mod Limits
pub mod Handoff
