-- ===== src/Stellar.antt =====
-- pkg/stellar: the Stellar processors of the SDK.
pub mod Panics
pub mod Xdr
pub mod Config
pub mod Names
pub mod Run
pub mod Running
pub mod Handlers
pub mod Outputs
pub mod Invocations
pub mod ContractEvents
