-- ===== src/Pipeline.antt =====
-- client/datastor/pipeline: how data is processed, hashed and stored as chunks.
pub mod Types
pub mod SingleObject
pub mod Storages
pub mod Workers
pub mod Flow
pub mod Numbered
pub mod Collecting
pub mod Composing
pub mod Splitter
pub mod Config
