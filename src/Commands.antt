-- ===== src/Commands.antt =====
-- src/usbws.c and the files of its commands: the program usbws.
pub mod Dispatch
pub mod Table
pub mod Run
pub mod Calls
pub mod Loop
pub mod Bind
pub mod Detach
pub mod Port
pub mod Listing
pub mod Serves
pub mod Asks
pub mod Options
pub mod Connect
pub mod Outcome
