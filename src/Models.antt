-- ===== src/Models.antt =====
-- models/models.go: the model catalog.
pub mod Catalog
pub mod Extract
pub mod Resolve
pub mod Listed
