-- ===== src/Firewall.antt =====
-- The firewall control modules of clabgen/s88/CM.
pub mod CpmRules
pub mod Rules
pub mod Policy
