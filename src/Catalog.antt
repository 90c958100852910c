-- ===== src/Catalog.antt =====
-- internal/catalog: names of definitions and their files.
pub mod NamePath
