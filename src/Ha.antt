-- ===== src/Ha.antt =====
-- The high availability component, ha/.
pub mod Node
pub mod Wire
