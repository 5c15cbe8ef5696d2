-- ===== src/Rpc.antt =====
-- `sc_rpc`: request slots, the method table and calls to the platform (src/sc_rpc.cpp).
pub mod Queue
pub mod Slots
pub mod Protocol
pub mod Answer
pub mod Methods
pub mod Handle
pub mod Calls
