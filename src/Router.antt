-- ===== src/Router.antt =====
-- The routing of audit calls over model channels: internal/audit/router.go, route_failover.go and
-- channel_rpm.go. The map `Engine.routes` is a function that gives an absent channel the fresh
-- state, which is what the code puts there on first use. Each call of `acquireRoute`, and each call
-- of the function that it returns, holds `routeMu` from its first to its last statement, so both
-- are functions from a state to a state.
pub mod State
pub mod Tier
pub mod Acquire
pub mod Weights
pub mod Release
pub mod Limits
pub mod Load
pub mod Members
pub mod Ledger
pub mod Cooldown
pub mod Away
pub mod Window
pub mod Failover
