-- ===== src/Log.antt =====
-- kernel/log.c: the redo log of the file system. `Store` is the disk with the buffer cache in front
-- of it, `Code` the functions, the others what is proved.
pub mod Store
pub mod Code
pub mod Ends
pub mod Replay
pub mod Loops
pub mod Recovery
pub mod Commit
mod Tests
pub mod Ops
pub mod Reserved
pub mod Space
