-- ===== src/Map.antt =====
-- src/core/map.c, src/core/map.h: the ordered map from strings to pointers, an AVL tree with parent
-- pointers.
mod Tests
pub mod Key
pub mod Tree
pub mod Insert
pub mod Remove
pub mod Entries
pub mod Balance
pub mod Refine
pub mod Iterator
pub mod Walk
