-- ===== src/P2p.antt =====
-- The P2P daemon, src/p2pd.c, and its interface to wpa_supplicant, src/p2pd_interface.c.
pub mod Config
pub mod Startup
pub mod Users
pub mod Control
pub mod Daemon
pub mod Dummy
mod Tests
