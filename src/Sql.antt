-- ===== src/Sql.antt =====
-- The SQL gate: src/carve/core/sql/dialects.py, classify.py and tool.py.
pub mod Dialects
pub mod Classify
pub mod Tool
mod Tests
