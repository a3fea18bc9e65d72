-- ===== src/Vcos.antt =====
-- The VideoCore OS layer (dependencies/current/interface/vcos/generic).
pub mod EventFlags
pub mod MessageQueue
pub mod ReentrantMutex
pub mod SafeString
