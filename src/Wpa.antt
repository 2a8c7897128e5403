-- ===== src/Wpa.antt =====
-- Events of wpa_supplicant: src/wpa_parser.c and src/wpa.h.
pub mod Search
pub mod Events
pub mod Tokenizer
pub mod Payload
pub mod Event
pub mod Ctrl
mod Tests
