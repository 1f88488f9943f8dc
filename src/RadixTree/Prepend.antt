-- ===== src/RadixTree/Prepend.antt =====
-- `prepend`: the edge to a child is cut where the key leaves it.
pub mod Common
pub mod Upper
pub mod Place
pub mod Entry
pub mod Pointer
pub mod Adds
