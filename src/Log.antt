-- ===== src/Log.antt =====
-- internal/logx: what may stand on a line of the log.
pub mod Scrub
