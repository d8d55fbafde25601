-- ===== src/Fs/FileTests.antt =====
-- The theorems about the blocks and files of kernel/fs.c at a concrete disk.
use csci5103_lab.Common.{
  ℕ, zero, suc, ◌+◌, ◌-◌, ◌<◌, ◌≡◌, refl, ap, arith, List, [], ◌∷◌, Bool, true, some, put, get_or,
  ltb, Bool-cases, inl, inr, if◌then◌else◌,
}
use csci5103_lab.Memory.{in_range}
use csci5103_lab.Fs.Itable.{Inode, no_inode}
use csci5103_lab.Fs.Blocks.{Superblock, Block, Disk, bblock, iblock, balloc}
use csci5103_lab.Fs.Bitmap.{used, IsReserved, Allocates}
use csci5103_lab.Fs.Allocation.{balloc-Allocates}
use csci5103_lab.Fs.Bmap.{Mapped, bmap}
use csci5103_lab.Fs.Slots.{slot, IsFile}
use csci5103_lab.Fs.Placement.{Maps}
use csci5103_lab.Fs.Mapping.{bmap-Maps}
use csci5103_lab.Fs.Content.{Read, Write, readi, writei}
use csci5103_lab.Fs.Truncate.{ialloc}
use csci5103_lab.Fs.Ialloc.{Chooses, ialloc-Chooses}
use csci5103_lab.Fs.Writei.{Written, writei-Written}
use csci5103_lab.Fs.Copied.{Bytes, copied}
use csci5103_lab.Fs.RoundTrip.{readi-writei}

-- 20 blocks: boot, inodes, bitmap, and 17 blocks that are free
abbrev small_disk : Superblock
small_disk = record {
  magic = 0x10203040;
  size = 20;
  nblocks = 17;
  ninodes = 16;
  nlog = 0;
  logstart = 1;
  inodestart = 1;
  bmapstart = 2;
}

abbrev fresh_disk : Disk
fresh_disk = put (λ _ _. 0) 2 (put (λ _. 0) 0 7)

abbrev zeros : ℕ → List ℕ
zeros zero = []
zeros (suc n) = 0 ∷ zeros n

abbrev empty_file : Inode
empty_file = record no_inode { dev = 1; inum = 3; ref = 1; valid = true; addrs = zeros 13 }

zeros_entry : (n s : ℕ) → get_or (zeros n) s 0 ≡ 0
zeros_entry zero s = refl
zeros_entry (suc n) zero = refl
zeros_entry (suc n) (suc s) = zeros_entry n s

empty_slot : (s : ℕ) → slot empty_file fresh_disk s ≡ 0
empty_slot s = elim (Bool-cases (ltb s 13)) [ inl e ↦ rw e (zeros_entry 13 s) | inr e ↦ rw e refl ]

empty_file-IsFile : IsFile small_disk empty_file fresh_disk
empty_file-IsFile = record {
  entries = refl;
  inside = λ s h n. absurd (n (empty_slot s));
  in_use = λ s h n. absurd (n (empty_slot s));
  no_bitmap = λ s j h n. absurd (n (empty_slot s));
  no_inodes = λ s i h n. absurd (n (empty_slot s));
  distinct = λ s t h k n. absurd (n (empty_slot s));
}

bitmap_block : (j : ℕ) → j < 20 → bblock small_disk j ≡ 2
bitmap_block j h = omega (arith, h)

inode_block : (i : ℕ) → i < 16 → iblock small_disk i ≡ 1
inode_block i h = omega (arith, h)

fresh_disk-IsReserved : IsReserved small_disk fresh_disk
fresh_disk-IsReserved = record {
  first = refl;
  bitmap = λ j h. ap (used small_disk fresh_disk) (bitmap_block j h);
  bitmap_inside = λ j h. omega (arith, h);
  inodes = λ i h. ap (used small_disk fresh_disk) (inode_block i h);
  inodes_inside = λ i h. omega (arith, h);
  apart = λ i j h k e. absurd (omega (arith, h, k, e));
  inodes_after_boot = omega arith;
  nonempty = omega arith;
  small = omega arith;
}

balloc-Allocates_example : Allocates small_disk fresh_disk (balloc small_disk fresh_disk)
balloc-Allocates_example = balloc-Allocates small_disk fresh_disk fresh_disk-IsReserved

bmap-Maps_example :
    (r : Mapped) × (bmap small_disk empty_file 20 fresh_disk ≡ some r)
    × Maps small_disk empty_file fresh_disk 21 r
bmap-Maps_example =
    bmap-Maps small_disk empty_file fresh_disk empty_file-IsFile fresh_disk-IsReserved 20
      (omega arith)

-- Copies that succeed, from a memory with the byte `a` at the address `a`
abbrev copy_in : Block → ℕ → ℕ → ℕ → Bool × Block
copy_in block at src m = (true, λ i. if in_range at m i then src + (i - at) else block i)

abbrev copy_out : ℕ → Block → ℕ → Bytes → Bool × Bytes
copy_out dst bytes m mem = (true, copied bytes 0 dst m mem)

writei-Written_example :
    (tot : ℕ) × (w : Write) × (writei small_disk copy_in 40 0 1500 empty_file fresh_disk ≡ some w)
    × Written small_disk (λ a. a) empty_file fresh_disk 0 40 1500 tot w
writei-Written_example =
    writei-Written small_disk copy_in (λ a. a) empty_file fresh_disk 0 40 1500
      (λ block at src m. (refl, λ i. refl)) empty_file-IsFile fresh_disk-IsReserved (omega arith)
      (omega arith) (omega arith)

readi-writei_example :
    (tot : ℕ) × (w : Write) × (r : Read Bytes) × (writei small_disk copy_in 40 0 1500 empty_file
        fresh_disk
      ≡ some w)
    × (w.count ≡ some tot)
    × (readi small_disk copy_out 7 0 tot w.inode w.disk (λ _. 1) ≡ some r)
    × (r.count ≡ some tot)
    × ((x : ℕ) → r.memory x ≡ copied (λ a. a) 40 7 tot (λ _. 1) x)
readi-writei_example =
    readi-writei small_disk copy_in (λ a. a) copy_out empty_file fresh_disk 0 40 1500 7 (λ _. 1)
      (λ block at src m. (refl, λ i. refl)) (λ dst m bytes mem. (refl, λ x. refl)) empty_file-IsFile
      fresh_disk-IsReserved (omega arith) (omega arith) (omega arith) (omega arith)

ialloc-Chooses_example : Chooses small_disk 2 fresh_disk 1 (ialloc small_disk 2 fresh_disk)
ialloc-Chooses_example = ialloc-Chooses small_disk 2 fresh_disk (omega arith)
