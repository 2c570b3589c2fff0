-- ===== src/RemapBlocks.antt =====
-- e2remapblocks.c of ext3remapper: it moves the blocks of listed extents into free extents of an ext3
-- filesystem.
pub mod Splay
pub mod Load
pub mod FreeExtents
pub mod Copy
pub mod Traverse
pub mod Bitmap
pub mod Run
pub mod Example
pub mod Tests
