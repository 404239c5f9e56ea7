-- ===== src/Tests.antt =====
-- Runs of the model on concrete inputs.
mod Sessions
mod Catalog
mod Chats
mod Accounts
pub mod Routing
pub mod Requests
pub mod Usage
pub mod Streams
pub mod Config
pub mod Origins
