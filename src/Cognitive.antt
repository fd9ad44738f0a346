-- ===== src/Cognitive.antt =====
-- internal/cognitive: the context of a run, the loop that plans, thinks, acts and reflects, and the
-- actor that runs the tools it asks for.
pub mod Context
pub mod Engine
pub mod Actor
pub mod Structured
