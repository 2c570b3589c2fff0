-- ===== src/MoveBlocks.antt =====
-- prefetch-initscripts/e2moveblocks: moving the blocks of files of an ext3 filesystem to one place.
pub mod Blocks
pub mod Estimate
pub mod FreeSpace
pub mod Ext2
pub mod Relocate
pub mod Layout
pub mod Opening
pub mod Main
pub mod BlockMap
pub mod Tests
