-- ===== src/Containers.antt =====
-- The containers of src/clang/lib/core.
pub mod LinkedList
pub mod Vector
pub mod Avl
pub mod Ring
