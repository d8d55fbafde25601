-- ===== src/Fs/Bmap.antt =====
-- `bmap` of kernel/fs.c: the blocks of an inode.
use csci5103_lab.Common.{
  ℕ, ◌-◌, ◌*◌, not, Option, none, some, get_or, set, put, ltb, ◌==◌, if◌then◌else◌,
}
use csci5103_lab.Memory.{load32, store32}
use csci5103_lab.Fs.Itable.{Inode}
use csci5103_lab.Fs.Blocks.{Superblock, Disk, balloc}

abbrev pub ndirect : ℕ
ndirect = 12

abbrev pub nindirect : ℕ
nindirect = 256

-- The block number that `bmap` returns, the inode, and the disk
pub record Mapped : Type 0 where
  pub addr : ℕ
  pub inode : Inode
  pub disk : Disk

abbrev pub addr_at : Inode → ℕ → ℕ
addr_at ip i = get_or ip.addrs i 0

-- `ip->addrs[i]`, allocated if it is 0: the two such parts of `bmap`
unfoldable pub bmap_addr : Superblock → Inode → ℕ → Disk → Mapped
bmap_addr sb ip i d =
    let found = balloc sb d in
    if not (addr_at ip i == 0)
    then record { addr = addr_at ip i; inode = ip; disk = d }
    else if found.0 == 0
    then record { addr = 0; inode = ip; disk = found.1 }
    else record {
      addr = found.0;
      inode = record ip { addrs = set ip.addrs i found.0 };
      disk = found.1;
    }

-- `a[bn]` in the indirect block, allocated if it is 0
unfoldable pub bmap_entry : Superblock → Inode → ℕ → ℕ → Disk → Mapped
bmap_entry sb ip addr bn d =
    let entry = load32 (d addr) (4 * bn) in
    let found = balloc sb d in
    if not (entry == 0)
    then record { addr = entry; inode = ip; disk = d }
    else if found.0 == 0
    then record { addr = 0; inode = ip; disk = found.1 }
    else record {
      addr = found.0;
      inode = ip;
      disk = put found.1 addr (store32 (found.1 addr) (4 * bn) found.0);
    }

abbrev pub bmap_indirect : Superblock → ℕ → Mapped → Mapped
bmap_indirect sb bn r = if r.addr == 0 then r else bmap_entry sb r.inode r.addr bn r.disk

-- `none`: panic "bmap: out of range".
unfoldable pub bmap : Superblock → Inode → ℕ → Disk → Option Mapped
bmap sb ip bn d =
    if ltb bn ndirect
    then some (bmap_addr sb ip bn d)
    else if ltb (bn - ndirect) nindirect
    then some (bmap_indirect sb (bn - ndirect) (bmap_addr sb ip ndirect d))
    else none
