-- ===== src/Bridge.antt =====
-- bridge: the chat handler, its failover over accounts, its error replies and the conversation seed.
pub mod Reply
pub mod Failover
pub mod Seed
pub mod Handler
pub mod Accounting
pub mod Attempts
pub mod Agreement
pub mod Answers
pub mod Turns
pub mod Params
pub mod Stream
pub mod Session
