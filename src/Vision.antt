-- ===== src/Vision.antt =====
-- The image processing of the repository: src/bg_sub.cpp, blur.cpp, blob_detect.cpp, compare.cpp,
-- their parallel and vector versions, and the pipeline of sequential.cpp.
pub mod Image
pub mod Root
pub mod Painters
pub mod Pixels
pub mod BgSub
pub mod Blur
pub mod Scan
pub mod Blobs
pub mod Compare
pub mod Pipeline
mod Tests
pub mod Detect
