-- ===== src/Tree.antt =====
-- nvwa/tree.h: trees whose nodes have a value and any number of children, and their traversals.
pub mod Defs
pub mod DepthFirst
pub mod InOrder
pub mod BreadthFirst
pub mod Tests
