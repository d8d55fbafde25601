-- ===== src/Proc/Parents.antt =====
-- What holds of the process table of kernel/proc.c at any time: parents are alive, and pids are unique.
mod Entries
mod Changes
mod Adoption
mod Exits
mod Births
mod Forks
mod Always
pub use Entries.{live, IsLive, IsTable, at-set_all}
pub use Always.{Reach-IsTable}
pub use Adoption.{parent-in_table, reparent-Adopted}
pub use Exits.{handed_over, handed_over-Adopted}
