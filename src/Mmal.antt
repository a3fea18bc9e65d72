-- ===== src/Mmal.antt =====
-- The MMAL core (dependencies/current/interface/mmal/core): buffer headers, queues and pools.
pub mod World
pub mod Chain
pub mod Queue
pub mod Buffer
pub mod Pool
pub mod DoubleList
pub mod Rational
pub mod Tests
