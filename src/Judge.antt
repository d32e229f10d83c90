-- ===== src/Judge.antt =====
-- The judge engine, src/judge/judge_engine.h and src/judge/judge_engine.cpp, by its parts.
pub mod Data
pub mod Compare
pub mod BoxPool
pub mod Message
pub mod Engine
