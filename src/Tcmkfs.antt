-- ===== src/Tcmkfs.antt =====
-- kernel/src/level0a/core/tcmkfs.rs: the file system on the disk. Layout has the constants and the
-- tables, Sectors the transfers, Bitmap the allocator of blocks, Names the paths, Nodes the
-- directories and files, Data the contents, Mount the formatting and the mounting.
pub mod Layout
pub mod Sectors
pub mod Bitmap
pub mod Text
pub mod Names
pub mod Nodes
pub mod Data
pub mod Mount
mod Tests
