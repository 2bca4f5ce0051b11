-- ===== src/Tests.antt =====
-- Concrete inputs: a session, a platform, a daemon, a client, on which the theorems are run.
pub mod Data
pub mod Sessions
pub mod Receives
pub mod Rings
pub mod Daemons
pub mod Clients
pub mod Commands
pub mod Queues
pub mod Lives
pub mod Intakes
pub mod Options
pub mod Threads
pub mod Broadcasts
pub mod Monitors
pub mod Arrivals
pub mod Openings
pub mod Joins
