-- ===== src/Db.antt =====
-- internal/db: the rows of the database, and the in-memory database of its child demo.
pub mod Models
pub mod Demo
