-- ===== src/Nanolog.antt =====
-- nanolog/: the asynchronous logger.
pub mod LoggerBuffer
pub mod Format
pub mod SwapBuffer
pub mod IoThread
pub mod Logger
pub mod Service
