-- ===== src/Transform.antt =====
-- transform/transform.go: how a streamed response is put together.
pub mod ToolCalls
pub mod Stream
pub mod Fragments
pub mod Delivery
pub mod Content
