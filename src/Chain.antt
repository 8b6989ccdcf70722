-- ===== src/Chain.antt =====
-- The keeper's access to the chain, bin/keeper/src/chain.
pub mod Events
pub mod Parse
pub mod Listener
pub mod Websocket
pub mod Steward
mod Tests
