-- ===== src/Store.antt =====
-- store/store.go: the account pool, the API keys, the settings and the file that keeps them.
pub mod Account
pub mod AutoSwitch
pub mod Config
pub mod Settings
pub mod Accounts
pub mod Keys
pub mod Calls
pub mod Load
pub mod Pool
pub mod Interleaving
pub mod Restart
