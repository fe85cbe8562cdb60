-- ===== src/Network.antt =====
-- The package services/safehttp: requests that reach public addresses only.
pub mod Addresses
pub mod Dialing
pub mod Reserved
pub mod Safety
