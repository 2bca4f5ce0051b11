-- ===== src/Daemon.antt =====
-- src/usbwsd.c: the daemon. What the platform answers is data of the model; what the daemon does
-- is a list of acts, in their order.
pub mod Options
pub mod Acts
pub mod Service
pub mod Hooks
pub mod Run
pub mod Release
pub mod Joins
pub mod Thread
