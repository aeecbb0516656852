-- ===== src/Farming.antt =====
-- The farming program, `programs/farming`.
pub mod Err
pub mod Farm
pub mod Farmer
pub mod Endpoints
mod Tests
mod EndpointTests
