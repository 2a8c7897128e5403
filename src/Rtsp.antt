-- ===== src/Rtsp.antt =====
-- The RTSP side of OpenWFD: the message decoder and the tokenizer of header lines.
pub mod Ctrl
pub mod Buffer
pub mod Sanitize
pub mod Header
pub mod Decoder
pub mod Tokenizer
mod Tests
