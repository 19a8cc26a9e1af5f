-- ===== src/Rpc.antt =====
-- The simulated network of lab3/labrpc.
pub mod Network
pub mod Request
pub mod Server
