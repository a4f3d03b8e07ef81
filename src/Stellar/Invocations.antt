-- ===== src/Stellar/Invocations.antt =====
-- pkg/stellar/processors/contract_invocation.
pub mod Numbers
pub mod Digits
pub mod Readings
pub mod Values
pub mod Conversions
pub mod Containers
pub mod Arguments
pub mod Calls
pub mod CallOrder
pub mod Events
pub mod CallShape
pub mod Changes
pub mod Ledger
pub mod Results
pub mod LedgerEvents
pub mod ChangeValues
pub mod Diagnostics
pub mod Proto
pub mod ProtoBatches
