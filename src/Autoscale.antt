-- ===== src/Autoscale.antt =====
-- The autoscale loop: cspawn/cs_docker/autoscale.py, a module for each of its parts.
pub mod Sidecar
pub mod State
pub mod Demand
pub mod Gather
pub mod ScaleUp
pub mod ScaleDown
pub mod Plan
pub mod Reaper
pub mod Apply
pub mod Cycle
mod Tests
