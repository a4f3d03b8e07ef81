-- ===== src/Flowctl.antt =====
-- pkg/flowctl: what a component shares with the control plane.
pub mod Types
pub mod Metrics
pub mod Health
pub mod Controller
