-- ===== src/Dhcp.antt =====
-- The DHCP daemon of OpenWFD: its configuration.
pub mod Config
