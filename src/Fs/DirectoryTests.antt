-- ===== src/Fs/DirectoryTests.antt =====
-- The theorems about directories of kernel/fs.c at a concrete directory.
use csci5103_lab.Common.{
  ℕ, zero, suc, ◌/◌, ◌%◌, ◌<◌, ◌≡◌, ◌≢◌, ◌⊎◌, inl, inr, refl, sym, ap, ◌∙◌, arith, List, [], ◌∷◌,
  true, false, some, get_or, ltb, Bool-cases, ◌==◌, if◌then◌else◌,
}
use csci5103_lab.Fs.Itable.{Inode, no_inode}
use csci5103_lab.Fs.Blocks.{Superblock, Block, Disk, bsize, bblock, iblock}
use csci5103_lab.Fs.Bitmap.{used, IsReserved}
use csci5103_lab.Fs.Slots.{slot, block_slot, byte_of, IsFile}
use csci5103_lab.Fs.Directory.{Lookup, dirlookup}
use csci5103_lab.Fs.Lookups.{IsDirectory, LooksUp, dirlookup-LooksUp}

-- 20 blocks: boot, inodes, bitmap, and block 5 with a directory
abbrev dir_sb : Superblock
dir_sb = record {
  magic = 0x10203040;
  size = 20;
  nblocks = 17;
  ninodes = 16;
  nlog = 0;
  logstart = 1;
  inodestart = 1;
  bmapstart = 2;
}

-- "." is inode 1 and "a" is inode 3.
abbrev dir_block : Block
dir_block k =
    if k == 0 then 1 else if k == 2 then 46 else if k == 16 then 3 else if k == 18 then 97 else 0

abbrev dir_disk : Disk
dir_disk b k = if b == 2 then (if k == 0 then 39 else 0) else if b == 5 then dir_block k else 0

abbrev zeros : ℕ → List ℕ
zeros zero = []
zeros (suc n) = 0 ∷ zeros n

abbrev root_dir : Inode
root_dir = record no_inode {
  dev = 1;
  inum = 1;
  ref = 1;
  valid = true;
  itype = 1;
  size = 32;
  addrs = 5 ∷ zeros 12;
}

zeros_entry : (n s : ℕ) → get_or (zeros n) s 0 ≡ 0
zeros_entry zero s = refl
zeros_entry (suc n) zero = refl
zeros_entry (suc n) (suc s) = zeros_entry n s

root_slot : (s : ℕ) → ((s ≡ 0) × (slot root_dir dir_disk s ≡ 5)) ⊎ (slot root_dir dir_disk s ≡ 0)
root_slot zero = inl (refl, refl)
root_slot (suc s) =
    inr (elim (Bool-cases (ltb (suc s) 13)) [ inl e ↦ rw e (zeros_entry 12 s) | inr e ↦ rw e refl ])

at_five : (s : ℕ) → slot root_dir dir_disk s ≢ 0 → (s ≡ 0) × (slot root_dir dir_disk s ≡ 5)
at_five s n = elim (root_slot s) [ inl h ↦ h | inr z ↦ absurd (n z) ]

root_dir-IsFile : IsFile dir_sb root_dir dir_disk
root_dir-IsFile = record {
  entries = refl;
  inside = λ s h n. omega (arith, (at_five s n).1);
  in_use = λ s h n. ap (used dir_sb dir_disk) (at_five s n).1;
  no_bitmap = λ s j h n k z. absurd (omega (arith, (at_five s n).1, z, k));
  no_inodes = λ s i h n k z. absurd (omega (arith, (at_five s n).1, z, k));
  distinct = λ s t h k n e. (at_five s n).0 ∙ sym (at_five t (λ z. n (e ∙ z))).0;
}

bitmap_block : (j : ℕ) → j < 20 → bblock dir_sb j ≡ 2
bitmap_block j h = omega (arith, h)

inode_block : (i : ℕ) → i < 16 → iblock dir_sb i ≡ 1
inode_block i h = omega (arith, h)

dir_disk-IsReserved : IsReserved dir_sb dir_disk
dir_disk-IsReserved = record {
  first = refl;
  bitmap = λ j h. ap (used dir_sb dir_disk) (bitmap_block j h);
  bitmap_inside = λ j h. omega (arith, h);
  inodes = λ i h. ap (used dir_sb dir_disk) (inode_block i h);
  inodes_inside = λ i h. omega (arith, h);
  apart = λ i j h k e. absurd (omega (arith, h, k, e));
  inodes_after_boot = omega arith;
  nonempty = omega arith;
  small = omega arith;
}

disk_byte : (b k : ℕ) → byte_of dir_disk b k < 256
disk_byte b k = ground arith

first_block : (p : ℕ) → p < 32 → block_slot (p / bsize) ≡ 0
first_block p h = ground (arith, h)

root_dir-IsDirectory : IsDirectory dir_sb root_dir dir_disk
root_dir-IsDirectory = record {
  file = root_dir-IsFile;
  reserved = dir_disk-IsReserved;
  small = omega arith;
  whole = refl;
  filled = λ p h z. absurd (omega (arith, sym (ap (slot root_dir dir_disk) (first_block p h)) ∙ z));
  bytes = λ p. disk_byte (slot root_dir dir_disk (block_slot (p / bsize))) (p % bsize);
}

-- "a"
abbrev name_a : ℕ → ℕ
name_a k = if k == 0 then 97 else 0

name_a_byte : (k : ℕ) → name_a k < 256
name_a_byte k = ground arith

dirlookup-LooksUp_example :
    (l : Lookup) × (dirlookup dir_sb
        (λ dst bytes m mem. (false, mem))
        name_a
        root_dir
        dir_disk
        (λ _. 9)
      ≡ some l)
    × LooksUp dir_sb name_a root_dir dir_disk 0 l
dirlookup-LooksUp_example =
    dirlookup-LooksUp dir_sb (λ dst bytes m mem. (false, mem)) name_a name_a_byte root_dir dir_disk
      root_dir-IsDirectory (λ _. 9) refl
