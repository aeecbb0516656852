-- ===== src/Amm.antt =====
-- The AMM program, `programs/amm`.
pub mod Err
pub mod Models
pub mod Math
pub mod Pool
pub mod Endpoints
mod Tests
mod EndpointTests
mod LiquidityTests
