-- ===== src/Logger.antt =====
-- libdnf/logger: the loggers that keep or forward messages.
pub mod MemoryBuffer
