-- ===== src/Storage/Keystore.antt =====
-- vericonomy-storage/src/light_keystore.rs: the key store of a light wallet. The persisted store, the
-- phrases of the open sessions and the clock are the state of each method.
pub mod Records
pub mod Sessions
pub mod Indices
pub mod Saved
pub mod Counter
pub mod Requests
pub mod Opens
pub mod Made
pub mod Progress
pub mod Locks
mod Toy
mod Tests
