-- ===== src/Programs.antt =====
-- The programs that try parts of the server out.
pub mod Clock
pub mod Trial
