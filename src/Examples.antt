-- ===== src/Examples.antt =====
-- Concrete services that meet the laws, and the theorems at concrete calls. Each service answers
-- while it is up, and returns an error and changes nothing while it is down.
pub mod Store
pub mod Laws
pub mod Calls
mod Ledger
mod Balances
mod Racing
mod Reading
mod Reads
mod Settings
pub mod Limits
mod Requests
mod Starting
mod Waiting
mod Running
mod Accepting
mod Late
mod Caching
