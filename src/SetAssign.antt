-- ===== src/SetAssign.antt =====
-- nvwa/set_assign.h: union and difference of ordered containers, in place.
pub mod Defs
pub mod Order
pub mod Union
pub mod Difference
mod Tests
