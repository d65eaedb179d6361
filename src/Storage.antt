-- ===== src/Storage.antt =====
-- vericonomy-storage: the records that a wallet keeps, their encryption and the key store.
pub mod Types
pub mod Crypto
pub mod Keystore
pub mod FileStore
