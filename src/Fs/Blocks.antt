-- ===== src/Fs/Blocks.antt =====
-- The blocks of kernel/fs.c: `balloc`, `bfree`, `bzero`. The disk is what the buffer cache shows: a
-- change that `log_write` gets is in it at once. There is one device; a block is its bytes.
use csci5103_lab.Common.{
  ℕ, zero, suc, ◌+◌, ◌-◌, ◌/◌, ◌%◌, ◌^◌, Bool, Option, none, some, bit_and, bit_or, put, ltb, ◌==◌,
  if◌then◌else◌,
}

-- `struct superblock`
pub record Superblock : Type 0 where
  pub magic : ℕ
  pub size : ℕ
  pub nblocks : ℕ
  pub ninodes : ℕ
  pub nlog : ℕ
  pub logstart : ℕ
  pub inodestart : ℕ
  pub bmapstart : ℕ

abbrev pub bsize : ℕ
bsize = 1024

-- Bits in a block of the bitmap
abbrev pub bpb : ℕ
bpb = 8192

abbrev pub Block : Type 0
Block = ℕ → ℕ

abbrev pub Disk : Type 0
Disk = ℕ → Block

-- `BBLOCK(b, sb)`
abbrev pub bblock : Superblock → ℕ → ℕ
bblock sb b = b / bpb + sb.bmapstart

-- `IBLOCK(i, sb)`, for 16 inodes per block
abbrev pub iblock : Superblock → ℕ → ℕ
iblock sb inum = inum / 16 + sb.inodestart

unfoldable pub bzero : ℕ → Disk → Disk
bzero b d = put d b (λ _. 0)

-- `(bp->data[bi/8] & m) == 0`, and `bp->data[bi/8] |= m`
abbrev pub is_free : Block → ℕ → Bool
is_free block bi = bit_and (block (bi / 8)) (2 ^ (bi % 8)) == 0

abbrev pub mark : Block → ℕ → Block
mark block bi = put block (bi / 8) (bit_or (block (bi / 8)) (2 ^ (bi % 8)))

-- `bp->data[bi/8] &= ~m`
abbrev pub unmark : Block → ℕ → Block
unmark block bi = put block (bi / 8) (bit_and (block (bi / 8)) (255 - 2 ^ (bi % 8)))

-- The inner loop of `balloc` from `bi` on, in `n` rounds
unfoldable pub find_free : Superblock → Block → ℕ → ℕ → ℕ → Option ℕ
find_free sb block b bi zero = none
find_free sb block b bi (suc n) =
    let rest = find_free sb block b (bi + 1) n in
    if ltb (b + bi) sb.size then if is_free block bi then some bi else rest else none

abbrev pub take_free : Superblock → Disk → ℕ → Option ℕ → ℕ × Disk → ℕ × Disk
take_free sb d b none rest = rest
take_free sb d b (some bi) rest =
    (b + bi, bzero (b + bi) (put d (bblock sb b) (mark (d (bblock sb b)) bi)))

-- The outer loop
unfoldable pub balloc_loop : Superblock → Disk → ℕ → ℕ → ℕ × Disk
balloc_loop sb d b zero = (0, d)
balloc_loop sb d b (suc n) =
    let rest = balloc_loop sb d (b + bpb) n in
    if ltb b sb.size then take_free sb d b (find_free sb (d (bblock sb b)) b 0 bpb) rest else (0, d)

-- After `size / bpb + 1` rounds, `b` is beyond the disk.
unfoldable pub balloc : Superblock → Disk → ℕ × Disk
balloc sb d = balloc_loop sb d 0 (sb.size / bpb + 1)

-- `none`: panic "freeing free block".
unfoldable pub bfree : Superblock → ℕ → Disk → Option Disk
bfree sb b d =
    if is_free (d (bblock sb b)) (b % bpb)
    then none
    else some (put d (bblock sb b) (unmark (d (bblock sb b)) (b % bpb)))
