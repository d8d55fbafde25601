-- ===== src/Fs.antt =====
-- kernel/fs.c: the file system above the log.
pub mod Itable
pub mod Entries
pub mod References
pub mod Path
pub mod Spelling
pub mod Blocks
pub mod Bitmap
pub mod Allocation
pub mod Bmap
pub mod Slots
pub mod Growth
pub mod Placement
pub mod IndirectPlacement
pub mod Mapping
pub mod Writing
pub mod Content
pub mod Storing
pub mod WriteLoop
pub mod Writei
pub mod Copied
pub mod Reading
pub mod RoundTrip
pub mod Truncate
pub mod Truncating
pub mod Itrunc
pub mod Ialloc
pub mod Directory
pub mod Lookups
mod Tests
mod FileTests
mod StoredTests
mod DirectoryTests
