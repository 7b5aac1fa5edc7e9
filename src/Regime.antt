-- ===== src/Regime.antt =====
-- app/regime/classifier.py
pub mod Priority
pub mod Classifier
pub mod Permission
pub mod Laws
mod Tests
