-- ===== src/Amm/Endpoints.antt =====
-- `programs/amm/src/endpoints`: the handlers, with the constraints on their accounts. Each takes
-- the keys of its accounts in a record, the accounts of this program that it reads or writes as
-- values, and the state of the token program; it returns those that it writes. The handlers of
-- the two endpoints that only store a key are in Admin.
pub mod Swap
pub mod Liquidity
pub mod CreatePool
pub mod Admin
pub mod Backing
