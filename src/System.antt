-- ===== src/System.antt =====
-- The server as a whole: requests, sockets and time, one after the other.
pub mod Stable
pub mod Accounts
pub mod Requests
pub mod Serving
pub mod Signals
pub mod Integrity
pub mod References
pub mod Sockets
pub mod Steps
pub mod Invariant
pub mod Channels
pub mod Valid
pub mod History
pub mod Ringing
