-- ===== src/Sql.antt =====
-- The parts of SQLite's language that the queries of src/db use beyond WHERE clauses over rows.
pub mod Like
