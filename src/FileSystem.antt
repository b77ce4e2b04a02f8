-- ===== src/FileSystem.antt =====
-- The file system: block devices, inodes and open files.
pub mod Device
pub mod Inode
pub mod Place
pub mod Read
pub mod Covers
pub mod Write
pub mod RoundTrip
pub mod Files
pub mod Open
pub mod FreeMap
pub mod Release
pub mod Openers
pub mod Opening
pub mod Closing
pub mod Deleting
pub mod Create
pub mod File
mod Tests
mod Runs
