-- ===== src/Fs/StoredTests.antt =====
-- The theorems about kernel/fs.c at a file with a direct block, an indirect block and a block that it lists.
use csci5103_lab.Common.{
  ℕ, zero, suc, ◌+◌, ◌-◌, ◌*◌, ◌%◌, ◌≤◌, ◌<◌, ◌≡◌, ◌≢◌, ◌⊎◌, inl, inr, refl, sym, ap, ◌∙◌, arith,
  List, [], ◌∷◌, ◌++◌, Bool, true, false, some, get_or, ltb, ltb-true_lt, ltb-false_le, Bool-cases,
  ◌==◌, ==_iff, if◌then◌else◌,
}
use csci5103_lab.Memory.{load32}
use csci5103_lab.Fs.Itable.{Inode, no_inode}
use csci5103_lab.Fs.Blocks.{Superblock, Block, Disk, bblock, iblock}
use csci5103_lab.Fs.Bitmap.{used, IsReserved}
use csci5103_lab.Fs.Bmap.{addr_at}
use csci5103_lab.Fs.Slots.{slot, IsFile}
use csci5103_lab.Fs.Content.{Read, readi}
use csci5103_lab.Fs.Truncate.{itrunc}
use csci5103_lab.Fs.Itrunc.{Truncates, itrunc-Truncates}
use csci5103_lab.Fs.Copied.{Bytes, copied}
use csci5103_lab.Fs.Reading.{Reads}
use csci5103_lab.Fs.RoundTrip.{left, readi-Reads}

-- 20 blocks: boot, inodes, bitmap, and blocks 5, 6 and 7 of the file
abbrev file_sb : Superblock
file_sb = record {
  magic = 0x10203040;
  size = 20;
  nblocks = 17;
  ninodes = 16;
  nlog = 0;
  logstart = 1;
  inodestart = 1;
  bmapstart = 2;
}

-- Block 6 lists block 7, and the bytes of blocks 5 and 7 count up.
abbrev file_disk : Disk
file_disk b k =
    if b == 2
    then (if k == 0 then 231 else 0)
    else if b == 6
    then (if k == 0 then 7 else 0)
    else if b == 5
    then k % 256
    else if b == 7
    then (k + 1) % 256
    else 0

abbrev zeros : ℕ → List ℕ
zeros zero = []
zeros (suc n) = 0 ∷ zeros n

abbrev big_file : Inode
big_file = record no_inode {
  dev = 1;
  inum = 3;
  ref = 1;
  valid = true;
  itype = 2;
  size = 13000;
  addrs = 5 ∷ zeros 11 ++ 6 ∷ [];
}

-- Which slot has a block
abbrev owner : ℕ → ℕ
owner b = if b == 5 then 0 else if b == 6 then 12 else 13

abbrev HasBlock : ℕ → ℕ → Type 0
HasBlock s b = (s ≡ owner b) × (5 ≤ b) × (b ≤ 7)

zeros_entry : (n s : ℕ) → get_or (zeros n ++ 6 ∷ []) s 0 ≡ (if s == n then 6 else 0)
zeros_entry zero zero = refl
zeros_entry zero (suc s) =
    let no : (suc s == 0) ≡ false = ground arith in ap (λ c. if c then 6 else 0) (sym no)
zeros_entry (suc n) zero =
    let no : (0 == suc n) ≡ false = ground arith in ap (λ c. if c then 6 else 0) (sym no)
zeros_entry (suc n) (suc s) = zeros_entry n s ∙ ap (λ c. if c then 6 else 0) (shifted s n)
  where
    shifted : (a b : ℕ) → (a == b) ≡ (suc a == suc b)
    shifted a b = ground arith

low_slot : (s : ℕ) → s < 13 → HasBlock s (addr_at big_file s) ⊎ (addr_at big_file s ≡ 0)
low_slot zero h = inl (refl, omega arith, omega arith)
low_slot (suc s) h = elim (Bool-cases (s == 11)) [
  | inl e ↦
      let is : addr_at big_file (suc s) ≡ 6 = zeros_entry 11 s ∙ ap (λ c. if c then 6 else 0) e in
      let place : s ≡ 11 = (==_iff s 11).0 e in
      inl (rw is (omega (arith, place)), omega (arith, is), omega (arith, is))
  | inr e ↦ inr (zeros_entry 11 s ∙ ap (λ c. if c then 6 else 0) e)
]

high_slot :
    (n : ℕ) → ((n ≡ 0) × (load32 (file_disk 6) (4 * n) ≡ 7)) ⊎ (load32 (file_disk 6) (4 * n) ≡ 0)
unfolding load32
high_slot n = elim (Bool-cases (n == 0)) [
  | inl e ↦ let z = (==_iff n 0).0 e in inl (z, rw z refl)
  | inr e ↦
      let n0 : (4 * n == 0) ≡ false = ground (arith, e) in
      let n1 : (4 * n + 1 == 0) ≡ false = ground arith in
      let n2 : (4 * n + 2 == 0) ≡ false = ground arith in
      let n3 : (4 * n + 3 == 0) ≡ false = ground arith in inr (rw (n0, n1, n2, n3) refl)
]

file_slot : (s : ℕ) → HasBlock s (slot big_file file_disk s) ⊎ (slot big_file file_disk s ≡ 0)
file_slot s = elim (Bool-cases (ltb s 13)) [
  | inl e ↦ rw e (low_slot s (ltb-true_lt s 13 e))
  | inr e ↦ elim (high_slot (s - 13)) [
    | inl (z, is) ↦
        let low = ltb-false_le s 13 e in
        let place : s ≡ 13 = omega (arith, z, low) in
        rw (e, is) (inl (place, omega arith, omega arith))
    | inr is ↦ rw (e, is) (inr refl)
  ]
]

held_slot : (s : ℕ) → slot big_file file_disk s ≢ 0 → HasBlock s (slot big_file file_disk s)
held_slot s n = elim (file_slot s) [ inl h ↦ h | inr z ↦ absurd (n z) ]

marked : (b : ℕ) → 5 ≤ b → b ≤ 7 → used file_sb file_disk b ≡ 1
marked b h k = elim (Bool-cases (b == 5)) [
  | inl e ↦ ap (used file_sb file_disk) ((==_iff b 5).0 e)
  | inr e ↦ elim (Bool-cases (b == 6)) [
    | inl f ↦ ap (used file_sb file_disk) ((==_iff b 6).0 f)
    | inr f ↦ let last : b ≡ 7 = ground (arith, h, k, e, f) in ap (used file_sb file_disk) last
  ]
]

big_file-IsFile : IsFile file_sb big_file file_disk
big_file-IsFile = record {
  entries = refl;
  inside = λ s h n. omega (arith, (held_slot s n).2);
  in_use = λ s h n. marked (slot big_file file_disk s) (held_slot s n).1 (held_slot s n).2;
  no_bitmap = λ s j h n k z. absurd (omega (arith, (held_slot s n).1, z, k));
  no_inodes = λ s i h n k z. absurd (omega (arith, (held_slot s n).1, z, k));
  distinct = λ s t h k n e. (held_slot s n).0 ∙ ap owner e ∙ sym (held_slot t (λ z. n (e ∙ z))).0;
}

bitmap_block : (j : ℕ) → j < 20 → bblock file_sb j ≡ 2
bitmap_block j h = omega (arith, h)

inode_block : (i : ℕ) → i < 16 → iblock file_sb i ≡ 1
inode_block i h = omega (arith, h)

file_disk-IsReserved : IsReserved file_sb file_disk
file_disk-IsReserved = record {
  first = refl;
  bitmap = λ j h. ap (used file_sb file_disk) (bitmap_block j h);
  bitmap_inside = λ j h. omega (arith, h);
  inodes = λ i h. ap (used file_sb file_disk) (inode_block i h);
  inodes_inside = λ i h. omega (arith, h);
  apart = λ i j h k e. absurd (omega (arith, h, k, e));
  inodes_after_boot = omega arith;
  nonempty = omega arith;
  small = omega arith;
}

abbrev copy_out : ℕ → Block → ℕ → Bytes → Bool × Bytes
copy_out dst bytes m mem = (true, copied bytes 0 dst m mem)

-- The last bytes of the hole behind block 5, and the first bytes of block 7, which the indirect block lists
readi-Reads_example :
    (count : ℕ) × (r : Read Bytes) × (readi file_sb copy_out 3 12280 20 big_file file_disk (λ _. 9)
      ≡ some r)
    × Reads file_sb (left big_file 12280 20) 0 12280 3 big_file file_disk (λ _. 9) count r
readi-Reads_example =
    readi-Reads file_sb copy_out big_file file_disk 3 12280 20 (λ _. 9)
      (λ dst m bytes mem. (refl, λ x. refl)) big_file-IsFile file_disk-IsReserved (omega arith)
      (omega arith) (omega arith)

itrunc-Truncates_example :
    (ip' : Inode) × (d' : Disk) × (itrunc file_sb big_file file_disk ≡ some (ip', d'))
    × Truncates file_sb big_file file_disk ip' d'
itrunc-Truncates_example =
    itrunc-Truncates file_sb big_file file_disk big_file-IsFile file_disk-IsReserved (omega arith)
