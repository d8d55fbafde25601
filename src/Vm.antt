-- ===== src/Vm.antt =====
-- kernel/vm.c: three-level page tables with 4096-byte pages and 2 MiB superpages. The children
-- `Walk`, `Map`, `User`, `Transfer` and `Print` hold the functions, the others what is proved.
pub mod Walk
pub mod Map
pub mod User
pub mod Transfer
pub mod Print
pub mod Sv39
pub mod Lookup
pub mod Mapping
pub mod Superpage
pub mod Unmap
pub mod Rounding
pub mod Shrink
pub mod Access
pub mod Copying
mod Tests
