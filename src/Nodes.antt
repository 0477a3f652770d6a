-- ===== src/Nodes.antt =====
-- The commands on swarm nodes: cspawn/cli/node.py.
pub mod Rebalance
pub mod Counts
pub mod Pins
pub mod Contract
pub mod Droplets
pub mod Removal
pub mod Activation
pub mod Labels
pub mod Purge
pub mod Serials
