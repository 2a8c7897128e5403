-- ===== src/Wpa/Ctrl.antt =====
-- The control channel to wpa_supplicant, src/wpa_ctrl.c.
pub mod Timed
pub mod Socket
pub mod Channel
pub mod Dispatch
mod Tests
