-- ===== src/Risk/Approval/Laws.antt =====
-- What an approval by the risk engine means.
mod Parts
pub mod Inputs
pub mod Limits
pub mod Nan
