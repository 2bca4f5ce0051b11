-- ===== src/Client.antt =====
-- src/usbws_client.c and src/usbws_client.h: the end that connects to a daemon.
pub mod Memory
pub mod State
pub mod Target
pub mod Start
pub mod Opening
pub mod Open
pub mod Wake
pub mod Blocks
