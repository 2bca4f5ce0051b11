-- ===== src/Session.antt =====
-- src/usbws_session.h and src/usbws_session.c: one WebSocket connection that carries USB/IP.
pub mod State
pub mod Write
pub mod Health
pub mod Recv
pub mod Callback
pub mod Sender
pub mod Memory
pub mod Exchange
pub mod Broadcast
pub mod Connections
pub mod Locks
pub mod Life
pub mod Ended
pub mod Wakes
pub mod Intake
pub mod Monitor
pub mod Arrival
pub mod Sock
