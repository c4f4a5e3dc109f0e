-- ===== src/Plan.antt =====
-- Patches of a plan and the versions that they make: backend/app/services/plan_patch_validator.py
-- and backend/app/services/plan_versioning.py.
pub mod Patch
pub mod Snapshots
pub mod Recalculation
pub mod Tables
pub mod Versions
mod Examples
