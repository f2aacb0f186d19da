-- ===== src/Store.antt =====
-- The two session stores: internal/models/models.go keeps sessions in memory only, and
-- internal/store/sessions.go keeps a cache in front of a database.
pub mod Memory
pub mod Sqlite
