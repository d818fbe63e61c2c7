-- ===== src/Linux.antt =====
-- The Linux control modules of clabgen/s88/CM: addresses, routes and the commands for them.
pub mod Addressing
pub mod RouteValues
pub mod Selection
pub mod RouteState
pub mod RouteVia
pub mod UplinkRoutes
pub mod PolicyRoutes
