-- ===== src/Fs/Content.antt =====
-- Reading and writing the content of a file: `readi`, `writei`, `iupdate`, `stati` of kernel/fs.c.
use csci5103_lab.Common.{
  ℕ, zero, suc, ◌+◌, ◌-◌, ◌*◌, ◌/◌, ◌%◌, ◌^◌, min, Bool, not, ◌||◌, Option, none, some, put, ltb,
  ◌==◌, if◌then◌else◌,
}
use csci5103_lab.Memory.{in_range}
use csci5103_lab.Fs.Itable.{Inode}
use csci5103_lab.Fs.Blocks.{Superblock, Block, Disk, bsize, iblock}
use csci5103_lab.Fs.Bmap.{Mapped, addr_at, bmap}

-- Blocks of a file
abbrev pub maxfile : ℕ
maxfile = 268

-- The bytes of a `struct dinode`
abbrev pub byte : ℕ → ℕ → ℕ
byte x k = x / 2 ^ (8 * k) % 256

abbrev pub dinode_byte : Inode → ℕ → ℕ
dinode_byte ip k =
    if ltb k 2
    then byte ip.itype k
    else if ltb k 4
    then byte ip.major (k - 2)
    else if ltb k 6
    then byte ip.minor (k - 4)
    else if ltb k 8
    then byte ip.nlink (k - 6)
    else if ltb k 12
    then byte ip.size (k - 8)
    else byte (addr_at ip ((k - 12) / 4)) ((k - 12) % 4)

abbrev pub with_dinode : Block → ℕ → Inode → Block
with_dinode block at ip i = if in_range at 64 i then dinode_byte ip (i - at) else block i

unfoldable pub iupdate : Superblock → Inode → Disk → Disk
iupdate sb ip d =
    put d (iblock sb ip.inum) (with_dinode (d (iblock sb ip.inum)) (64 * (ip.inum % 16)) ip)

-- `struct stat`
pub record Stat : Type 0 where
  pub dev : ℕ
  pub ino : ℕ
  pub itype : ℕ
  pub nlink : ℕ
  pub size : ℕ

abbrev pub stati : Inode → Stat
stati ip = record {
  dev = ip.dev;
  ino = ip.inum;
  itype = ip.itype;
  nlink = ip.nlink;
  size = ip.size;
}

-- The bytes that a round copies: up to the end of the block, and no more than are left
abbrev pub chunk : ℕ → ℕ → ℕ
chunk left off = min left (bsize - off % bsize)

-- `off` is in the file, and `off + n` does not wrap.
abbrev pub is_outside : Inode → ℕ → ℕ → Bool
is_outside ip off n = ltb ip.size off || ltb ((off + n) % 2 ^ 32) off

-- What `readi` returns, `none` for -1, with what it leaves in the memory `A` of the destination.
pub record Read (A : Type 0) : Type 0 where
  pub count : Option ℕ
  pub inode : Inode
  pub disk : Disk
  pub memory : A

module _ (sb : Superblock) where
  -- `either_copyout` gets the address, the bytes and their number.
  module _ {A : Type 0} (either_copyout : ℕ → Block → ℕ → A → Bool × A) where
    abbrev pub readi_step :
        ℕ → ℕ → ℕ → ℕ → A → Mapped → (Mapped → A → Option (Read A)) → Option (Read A)
    readi_step tot m off dst mem r later =
        let out = either_copyout dst (λ i. r.disk r.addr (off % bsize + i)) m mem in
        if r.addr == 0
        then some (record { count = some tot; inode = r.inode; disk = r.disk; memory = mem })
        else if not out.0
        then some (record { count = none; inode = r.inode; disk = r.disk; memory = out.1 })
        else later r out.1

    abbrev pub readi_mapped :
        ℕ → ℕ → ℕ → ℕ → A → Option Mapped → (Mapped → A → Option (Read A)) → Option (Read A)
    readi_mapped tot m off dst mem none later = none
    readi_mapped tot m off dst mem (some r) later = readi_step tot m off dst mem r later

    -- The loop of `readi` for `n` bytes, in at most `k` rounds. `none` is a panic of `bmap`, or
    -- the end of the rounds. `dst`, a 64-bit address, is taken not to wrap.
    unfoldable pub readi_loop : ℕ → ℕ → ℕ → ℕ → ℕ → Inode → Disk → A → Option (Read A)
    readi_loop zero n tot off dst ip d mem = none
    readi_loop (suc k) n tot off dst ip d mem =
        let m = chunk (n - tot) off in
        let round =
          readi_mapped tot m off dst mem (bmap sb ip (off / bsize) d)
            (λ r out. readi_loop k n (tot + m) (off + m) (dst + m) r.inode r.disk out) in
        if ltb tot n
        then round
        else some (record { count = some tot; inode = ip; disk = d; memory = mem })

    -- Each round copies a byte, so `n + 1` rounds are enough.
    unfoldable pub readi : ℕ → ℕ → ℕ → Inode → Disk → A → Option (Read A)
    readi dst off n ip d mem =
        let left = if ltb ip.size (off + n) then ip.size - off else n in
        if is_outside ip off n
        then some (record { count = some 0; inode = ip; disk = d; memory = mem })
        else readi_loop (left + 1) left 0 off dst ip d mem

-- Where the loop of `writei` ends.
pub record Progress : Type 0 where
  pub tot : ℕ
  pub off : ℕ
  pub inode : Inode
  pub disk : Disk

-- What `writei` returns, `none` for -1.
pub record Write : Type 0 where
  pub count : Option ℕ
  pub inode : Inode
  pub disk : Disk

module _ (sb : Superblock) where
  -- `either_copyin` gets the bytes of the block, the index in it, the address and the number; a call that fails
  -- may have changed the buffer too.
  module _ (either_copyin : Block → ℕ → ℕ → ℕ → Bool × Block) where
    abbrev pub writei_step : ℕ → ℕ → ℕ → ℕ → Mapped → (Mapped → Option Progress) → Option Progress
    writei_step tot m off src r later =
        let out = either_copyin (r.disk r.addr) (off % bsize) src m in
        let r' : Mapped = record r { disk = put r.disk r.addr out.1 } in
        if r.addr == 0
        then some (record { tot = tot; off = off; inode = r.inode; disk = r.disk })
        else if not out.0
        then some (record { tot = tot; off = off; inode = r.inode; disk = r'.disk })
        else later r'

    abbrev pub writei_mapped :
        ℕ → ℕ → ℕ → ℕ → Option Mapped → (Mapped → Option Progress) → Option Progress
    writei_mapped tot m off src none later = none
    writei_mapped tot m off src (some r) later = writei_step tot m off src r later

    -- `src`, a 64-bit address, is taken not to wrap.
    unfoldable pub writei_loop : ℕ → ℕ → ℕ → ℕ → ℕ → Inode → Disk → Option Progress
    writei_loop zero n tot off src ip d = none
    writei_loop (suc k) n tot off src ip d =
        let m = chunk (n - tot) off in
        let round =
          writei_mapped tot m off src (bmap sb ip (off / bsize) d)
            (λ r. writei_loop k n (tot + m) (off + m) (src + m) r.inode r.disk) in
        if ltb tot n then round else some (record { tot = tot; off = off; inode = ip; disk = d })

  -- The end of `writei`
  abbrev pub grown : Progress → Inode
  grown p = if ltb p.inode.size p.off then record p.inode { size = p.off } else p.inode

  abbrev pub writei_end : Option Progress → Option Write
  writei_end none = none
  writei_end (some p) =
      some (record { count = some p.tot; inode = grown p; disk = iupdate sb (grown p) p.disk })

  module _ (either_copyin : Block → ℕ → ℕ → ℕ → Bool × Block) where
    unfoldable pub writei : ℕ → ℕ → ℕ → Inode → Disk → Option Write
    writei src off n ip d =
        if is_outside ip off n || ltb (maxfile * bsize) (off + n)
        then some (record { count = none; inode = ip; disk = d })
        else writei_end (writei_loop either_copyin (n + 1) n 0 off src ip d)
