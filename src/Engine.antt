-- ===== src/Engine.antt =====
-- src/InferenceEngine.cpp and src/ThreadPool.cpp: a task becomes a result. ONNX Runtime's session
-- is an argument, and so is the arithmetic of `float`.
pub mod Run
pub mod Metadata
pub mod Worker
pub mod Pool
mod Tests
