-- ===== src/Fs/Itable.antt =====
-- The table of inodes in memory of kernel/fs.c: `iget`, `idup`, `ilock`,
-- `iput`. A `struct inode *` is its index.
use csci5103_lab.Common.{
  ℕ, ◌+◌, ◌-◌, Bool, true, false, ◌&&◌, Option, none, some, List, [], ◌∷◌, get_or, set, ltb, ◌==◌,
  if◌then◌else◌,
}

pub record Inode : Type 0 where
  pub dev : ℕ
  pub inum : ℕ
  pub ref : ℕ
  pub valid : Bool
  pub itype : ℕ
  pub major : ℕ
  pub minor : ℕ
  pub nlink : ℕ
  pub size : ℕ
  pub addrs : List ℕ

abbrev pub no_inode : Inode
no_inode = record {
  dev = 0;
  inum = 0;
  ref = 0;
  valid = false;
  itype = 0;
  major = 0;
  minor = 0;
  nlink = 0;
  size = 0;
  addrs = [];
}

abbrev pub inode_at : List Inode → ℕ → Inode
inode_at is i = get_or is i no_inode

-- The loop of `iget` from entry `i` on: the entry of the inode, or the first free entry, if any.
pub data Search : Type 0 where
  cached : ℕ → Search
  recycle : Option ℕ → Search

abbrev pub or_first : Option ℕ → ℕ → Bool → Option ℕ
or_first none i free = if free then some i else none
or_first (some e) i free = some e

unfoldable pub iget_search : ℕ → ℕ → ℕ → Option ℕ → List Inode → Search
iget_search dev inum i empty [] = recycle empty
iget_search dev inum i empty (ip ∷ is) =
    let rest = iget_search dev inum (i + 1) (or_first empty i (ip.ref == 0)) is in
    if ltb 0 ip.ref && (ip.dev == dev) && (ip.inum == inum) then cached i else rest

-- `none`: panic "iget: no inodes".
unfoldable pub iget : ℕ → ℕ → List Inode → Option (ℕ × List Inode)
iget dev inum is = elim (iget_search dev inum 0 none is) [
  | cached i ↦ some (i, set is i (record (inode_at is i) { ref = (inode_at is i).ref + 1 }))
  | recycle none ↦ none
  | recycle (some i) ↦
      some (i, set is i (record (inode_at is i) { dev = dev; inum = inum; ref = 1; valid = false }))
]

unfoldable pub idup : ℕ → List Inode → List Inode
idup i is = set is i (record (inode_at is i) { ref = (inode_at is i).ref + 1 })

-- `struct dinode`, an inode on disk
pub record Dinode : Type 0 where
  pub itype : ℕ
  pub major : ℕ
  pub minor : ℕ
  pub nlink : ℕ
  pub size : ℕ
  pub addrs : List ℕ

-- The panics of `ilock`
pub data Locking : Type 0 where
  ilocked : List Inode → Locking
  ilock_panic ilock_no_type : Locking

-- `ilock` under the sleep lock of the inode, whose copy on the disk is `dip`.
unfoldable pub ilock : Dinode → ℕ → List Inode → Locking
ilock dip i is =
    let ip = inode_at is i in
    if ltb ip.ref 1
    then ilock_panic
    else if ip.valid
    then ilocked is
    else if dip.itype == 0
    then ilock_no_type
    else ilocked (
        set is i (record ip {
          itype = dip.itype;
          major = dip.major;
          minor = dip.minor;
          nlink = dip.nlink;
          size = dip.size;
          addrs = dip.addrs;
          valid = true;
        }))

-- The test of `iput`, what it does then to the inode, which `itrunc` has left empty, and its end
unfoldable pub iput_is_last : ℕ → List Inode → Bool
iput_is_last i is =
    (inode_at is i).ref == 1 && (inode_at is i).valid && ((inode_at is i).nlink == 0)

unfoldable pub iput_free : ℕ → List Inode → List Inode
iput_free i is = set is i (record (inode_at is i) { itype = 0; valid = false })

unfoldable pub iput_drop : ℕ → List Inode → List Inode
iput_drop i is = set is i (record (inode_at is i) { ref = (inode_at is i).ref - 1 })
