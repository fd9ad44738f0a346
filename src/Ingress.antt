-- ===== src/Ingress.antt =====
-- internal/ingress: events, the router, the resolver of workspaces and sessions, and the two queues.
pub mod Event
pub mod Resolver
pub mod Queues
pub mod Delivery
pub mod Acceptance
