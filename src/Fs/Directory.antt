-- ===== src/Fs/Directory.antt =====
-- `dirlookup` of kernel/fs.c, and `either_copyout` of kernel/proc.c.
use csci5103_lab.Common.{
  ℕ, zero, suc, ◌+◌, ◌*◌, ◌%◌, ◌^◌, Bool, true, false, not, Option, none, some, ltb, ◌==◌,
  if◌then◌else◌,
}
use csci5103_lab.Cstring.Compare.{strncmp}
use csci5103_lab.Fs.Itable.{Inode}
use csci5103_lab.Fs.Blocks.{Superblock, Block, Disk}
use csci5103_lab.Fs.Content.{Read, readi}
use csci5103_lab.Fs.Copied.{Bytes, copied}

-- `copyout` of the process is an argument.
abbrev pub either_copyout :
    (ℕ → Block → ℕ → Bytes → Bool × Bytes) → Bool → ℕ → Block → ℕ → Bytes → Bool × Bytes
either_copyout copyout user_dst dst src len mem =
    if user_dst then copyout dst src len mem else (true, copied src 0 dst len mem)

-- A `struct dirent` at the start of some bytes
abbrev pub dirent_inum : Bytes → ℕ
dirent_inum de = de 0 + 256 * de 1

abbrev pub dirent_name : Bytes → ℕ → ℕ
dirent_name de k = de (2 + k)

abbrev pub t_dir : ℕ
t_dir = 1

abbrev pub namecmp : (ℕ → ℕ) → (ℕ → ℕ) → ℕ
namecmp s t = strncmp 14 0 s t

-- The inode number that `dirlookup` calls `iget` with, and `*poff`; `none` for a return of 0.
pub record Lookup : Type 0 where
  pub result : Option (ℕ × ℕ)
  pub inode : Inode
  pub disk : Disk

module _ (sb : Superblock) (copyout : ℕ → Block → ℕ → Bytes → Bool × Bytes) where
  -- One entry; `none` is a panic.
  abbrev pub whole_entry : Option ℕ → Bool
  whole_entry none = false
  whole_entry (some m) = m == 16

  abbrev pub dir_entry :
      (ℕ → ℕ) → ℕ → Option (Read Bytes) → (Read Bytes → Option Lookup) → Option Lookup
  dir_entry name off none later = none
  dir_entry name off (some r) later =
      if not (whole_entry r.count)
      then none
      else if dirent_inum r.memory == 0
      then later r
      else if namecmp name (dirent_name r.memory) == 0
      then some
          (record { result = some (dirent_inum r.memory, off); inode = r.inode; disk = r.disk })
      else later r

  -- The loop from `off` on, in at most `k` rounds; `de` is the local variable.
  unfoldable pub dirlookup_loop : ℕ → (ℕ → ℕ) → ℕ → Inode → Disk → Bytes → Option Lookup
  dirlookup_loop zero name off dp d de = none
  dirlookup_loop (suc k) name off dp d de =
      let round =
        dir_entry name off (readi sb (either_copyout copyout false) 0 off 16 dp d de)
          (λ r. dirlookup_loop k name ((off + 16) % 2 ^ 32) r.inode r.disk r.memory) in
      if ltb off dp.size then round else some (record { result = none; inode = dp; disk = d })

  -- Entries take 16 bytes each, so `size` rounds and one more are enough.
  unfoldable pub dirlookup : (ℕ → ℕ) → Inode → Disk → Bytes → Option Lookup
  dirlookup name dp d de =
      if not (dp.itype == t_dir) then none else dirlookup_loop (dp.size + 1) name 0 dp d de
