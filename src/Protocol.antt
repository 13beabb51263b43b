-- ===== src/Protocol.antt =====
-- What the two daemons (provider-daemon/src/transport.rs, client-daemon/src/transport.rs) do with one
-- another's bytes. Each theorem is about both.
pub mod Handshake
pub mod Tickets
pub mod Responses
pub mod Session
pub mod Exchange
mod Examples
