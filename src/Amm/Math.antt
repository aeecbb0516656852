-- ===== src/Amm/Math.antt =====
-- `programs/amm/src/math`.
pub mod Helpers
pub mod SwapEquation
pub mod StableCurve
pub mod Exact
pub mod Scaling
pub mod Newton
pub mod MulDiv
