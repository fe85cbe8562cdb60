-- ===== src/Ai.antt =====
-- The package services/ai: what is read of the answers of a model. The clients of the providers are
-- network input.
pub mod Answers
pub mod Bounds
pub mod Fences
