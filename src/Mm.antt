-- ===== src/Mm.antt =====
-- Memory management: kernel/src/mm.
pub mod Physical
pub mod Region
pub mod Slab
