-- ===== src/Types.antt =====
-- frontend/lib/types.ts: what the API returns. A number is an integer here, since the API returns
-- amounts in minor units, rates in parts per million, and counts. A field that may be null, or absent,
-- is an `Option`; a record from texts to values is a list of entries.
pub mod Scalars
pub mod Events
pub mod Agents
pub mod Credit
pub mod Underwriting
pub mod Vaults
pub mod Transactions
pub mod Dashboard
pub mod Policy
pub mod Metrics
pub mod Intelligence
