-- ===== src/Farming/Endpoints.antt =====
-- `programs/farming/src/endpoints`: an instruction takes its accounts with the constraints on
-- them, the current slot, its arguments, the data accounts it changes and the token ledger.
pub mod Staking
pub mod Claim
pub mod Compound
pub mod Harvests
pub mod Admin
pub mod StakeVault
pub mod Emission
