-- ===== src/Fs/Truncate.antt =====
-- Freeing what a file has, and taking a free inode: `itrunc` and `ialloc` of kernel/fs.c.
use csci5103_lab.Common.{
  ℕ, zero, suc, ◌+◌, ◌-◌, ◌*◌, ◌%◌, Option, none, some, List, get_or, set, put, ltb, ◌==◌,
  if◌then◌else◌,
}
use csci5103_lab.Memory.{in_range, load32}
use csci5103_lab.Fs.Itable.{Inode}
use csci5103_lab.Fs.Blocks.{Superblock, Block, Disk, iblock, bfree}
use csci5103_lab.Fs.Bmap.{ndirect, nindirect}
use csci5103_lab.Fs.Content.{byte, iupdate}

-- The inode on the disk as `memset` and `dip->type = type` leave it
abbrev pub new_dinode : Block → ℕ → ℕ → Block
new_dinode block at type_ i =
    if in_range at 64 i then (if ltb (i - at) 2 then byte type_ (i - at) else 0) else block i

module _ (sb : Superblock) where
  -- `if(addr) bfree(ip->dev, addr)`; `none` is a panic of `bfree`.
  abbrev pub free_block : ℕ → Disk → Option Disk
  free_block addr d = if addr == 0 then some d else bfree sb addr d

  abbrev pub after_free : {A : Type 0} → Option Disk → (Disk → Option A) → Option A
  after_free none later = none
  after_free (some d) later = later d

  -- The loop over the direct blocks from `i` on, in `n` rounds: `ip->addrs` and the disk
  unfoldable pub free_direct : ℕ → ℕ → List ℕ → Disk → Option (List ℕ × Disk)
  free_direct zero i addrs d = some (addrs, d)
  free_direct (suc n) i addrs d =
      after_free (free_block (get_or addrs i 0) d) (λ d'. free_direct n (i + 1) (set addrs i 0) d')

  -- The loop over the entries of the indirect block
  unfoldable pub free_entries : ℕ → ℕ → ℕ → Disk → Option Disk
  free_entries addr zero j d = some d
  free_entries addr (suc n) j d =
      after_free (free_block (load32 (d addr) (4 * j)) d) (λ d'. free_entries addr n (j + 1) d')

  abbrev pub free_indirect : ℕ → Disk → Option Disk
  free_indirect addr d =
      if addr == 0
      then some d
      else after_free (free_entries addr nindirect 0 d) (λ d'. bfree sb addr d')

  abbrev pub truncated : Inode → Option (List ℕ × Disk) → Option (Inode × Disk)
  truncated ip none = none
  truncated ip (some (addrs, d)) = after_free (free_indirect (get_or addrs ndirect 0) d) (λ d'.
      let ip' : Inode = record ip { addrs = set addrs ndirect 0; size = 0 } in
      some (ip', iupdate sb ip' d'))

  unfoldable pub itrunc : Inode → Disk → Option (Inode × Disk)
  itrunc ip d = truncated ip (free_direct ndirect 0 ip.addrs d)

  -- `dip->type`
  abbrev pub disk_type : ℕ → Disk → ℕ
  disk_type inum d =
      let block = d (iblock sb inum) in let at = 64 * (inum % 16) in block at + 256 * block (at + 1)

  -- The loop of `ialloc` from `inum` on, in `n` rounds
  unfoldable pub ialloc_loop : ℕ → ℕ → ℕ → Disk → Option (ℕ × Disk)
  ialloc_loop type_ zero inum d = none
  ialloc_loop type_ (suc n) inum d =
      let rest = ialloc_loop type_ n (inum + 1) d in
      if ltb inum sb.ninodes
      then (if disk_type inum d == 0
          then some (
            inum,
            put d (iblock sb inum) (new_dinode (d (iblock sb inum)) (64 * (inum % 16)) type_),
          )
          else rest)
      else none

  -- The number that `ialloc` calls `iget` with, `none` for a return of 0.
  unfoldable pub ialloc : ℕ → Disk → Option (ℕ × Disk)
  ialloc type_ d = ialloc_loop type_ sb.ninodes 1 d
