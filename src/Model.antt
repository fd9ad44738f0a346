-- ===== src/Model.antt =====
-- internal/model: the router from model names to providers, with its fallbacks.
pub mod Router
pub mod Fallback
pub mod Embedding
