-- ===== src/Fs/Slots.antt =====
-- The blocks that an inode of kernel/fs.c refers to, and the content of its file.
use mathlib.Core.Path.{subst}
use csci5103_lab.Common.{
  ℕ, ◌+◌, ◌-◌, ◌*◌, ◌/◌, ◌%◌, ◌≤◌, ◌<◌, ◌≡◌, ◌≢◌, ◌⊎◌, inl, inr, refl, sym, ap, ◌∙◌, arith, length,
  ltb, lt→ltb, ltb-eq-false, ==_iff, ==_false, ◌==◌, if◌then◌else◌,
}
use csci5103_lab.Memory.{load32}
use csci5103_lab.Fs.Itable.{Inode}
use csci5103_lab.Fs.Blocks.{Superblock, Disk, bsize, bblock, iblock}
use csci5103_lab.Fs.Bmap.{ndirect, addr_at}
use csci5103_lab.Fs.Bitmap.{used, IsReserved}
use csci5103_lab.Fs.Allocation.{used_apart, unused_before}

abbrev pub nslots : ℕ
nslots = 269

-- 12 direct blocks, the indirect block, and the 256 blocks that it lists
abbrev pub entry_of : Disk → ℕ → ℕ → ℕ
entry_of d a n = if a == 0 then 0 else load32 (d a) (4 * n)

abbrev pub slot : Inode → Disk → ℕ → ℕ
slot ip d s = if ltb s 13 then addr_at ip s else entry_of d (addr_at ip 12) (s - 13)

pub slot_low : (ip : Inode) (d : Disk) (s : ℕ) → s < 13 → slot ip d s ≡ addr_at ip s
slot_low ip d s h =
    ap (λ c. if c then addr_at ip s else entry_of d (addr_at ip 12) (s - 13)) (lt→ltb s 13 h)

pub slot_high :
    (ip : Inode) (d : Disk) (s : ℕ) → 13 ≤ s → slot ip d s ≡ entry_of d (addr_at ip 12) (s - 13)
slot_high ip d s h =
    ap (λ c. if c then addr_at ip s else entry_of d (addr_at ip 12) (s - 13)) (ltb-eq-false s 13 h)

pub entry_of-zero : (d : Disk) {a : ℕ} (n : ℕ) → a ≡ 0 → entry_of d a n ≡ 0
entry_of-zero d {a} n e = ap (λ c. if c then 0 else load32 (d a) (4 * n)) ((==_iff a 0).1 e)

pub entry_of-nonzero : (d : Disk) {a : ℕ} (n : ℕ) → a ≢ 0 → entry_of d a n ≡ load32 (d a) (4 * n)
entry_of-nonzero d {a} n e = ap (λ c. if c then 0 else load32 (d a) (4 * n)) (==_false a 0 e)

-- The slot of the block `bn` of the file
abbrev pub block_slot : ℕ → ℕ
block_slot bn = if ltb bn ndirect then bn else bn + 1

-- The byte `p` of the file; a block that is missing reads as zeros.
abbrev pub byte_of : Disk → ℕ → ℕ → ℕ
byte_of d b i = if b == 0 then 0 else d b i

abbrev pub content : Inode → Disk → ℕ → ℕ
content ip d p = byte_of d (slot ip d (block_slot (p / bsize))) (p % bsize)

pub byte_of-zero : (d : Disk) {b : ℕ} (i : ℕ) → b ≡ 0 → byte_of d b i ≡ 0
byte_of-zero d {b} i e = ap (λ c. if c then 0 else d b i) ((==_iff b 0).1 e)

pub byte_of-nonzero : (d : Disk) {b : ℕ} (i : ℕ) → b ≢ 0 → byte_of d b i ≡ d b i
byte_of-nonzero d {b} i n = ap (λ c. if c then 0 else d b i) (==_false b 0 n)

pub block_slot_lt : (bn : ℕ) → bn < 268 → block_slot bn < nslots
block_slot_lt bn h = ground (arith, h)

pub block_slot_ne : (bn : ℕ) → block_slot bn ≢ 12
block_slot_ne bn = ground arith

-- The blocks of an inode are in use, different from each other, and hold no bitmap and no inodes.
pub record IsFile (sb : Superblock) (ip : Inode) (d : Disk) : Type 0 where
  pub entries : length ip.addrs ≡ 13
  pub inside : (s : ℕ) → s < nslots → slot ip d s ≢ 0 → slot ip d s < sb.size
  pub in_use : (s : ℕ) → s < nslots → slot ip d s ≢ 0 → used sb d (slot ip d s) ≡ 1
  pub no_bitmap : (s j : ℕ) → s < nslots → slot ip d s ≢ 0 → j < sb.size → slot ip d s ≢ bblock sb j
  pub no_inodes :
      (s i : ℕ) → s < nslots → slot ip d s ≢ 0 → i < sb.ninodes → slot ip d s ≢ iblock sb i
  pub distinct :
      (s t : ℕ) → s < nslots → t < nslots → slot ip d s ≢ 0 → slot ip d s ≡ slot ip d t → s ≡ t

-- A change that keeps the file, and what other files hold.
pub record Keeps (sb : Superblock) (ip : Inode) (d : Disk) (ip' : Inode) (d' : Disk) : Type 0 where
  pub file : IsFile sb ip' d'
  pub reserved : IsReserved sb d'
  pub same_content : (p : ℕ) → p < 268 * bsize → content ip' d' p ≡ content ip d p
  pub same_size : ip'.size ≡ ip.size
  pub no_fewer : (s : ℕ) → s < nslots → slot ip d s ≢ 0 → slot ip' d' s ≡ slot ip d s
  pub same_inum : ip'.inum ≡ ip.inum
  pub old_or_free :
      (s : ℕ)
      → s < nslots
      → (slot ip' d' s ≡ slot ip d s)
        ⊎ ((slot ip' d' s < sb.size) × (used sb d (slot ip' d' s) ≡ 0))
  pub still_used : (x : ℕ) → x < sb.size → used sb d x ≡ 1 → used sb d' x ≡ 1
  pub others :
      (x : ℕ)
      → x < sb.size
      → used sb d x ≡ 1
      → ((j : ℕ) → j < sb.size → x ≢ bblock sb j)
      → x ≢ slot ip d 12
      → d' x ≡ d x

pub Keeps-refl :
    (sb : Superblock) (ip : Inode) (d : Disk)
    → IsFile sb ip d
    → IsReserved sb d
    → Keeps sb ip d ip d
Keeps-refl sb ip d file ok = record {
  file = file;
  reserved = ok;
  same_content = λ p _. refl;
  same_size = refl;
  no_fewer = λ s _ _. refl;
  same_inum = refl;
  old_or_free = λ _ _. inl refl;
  still_used = λ x _ u. u;
  others = λ x _ _ _ _. refl;
}

pub Keeps-trans :
    (sb : Superblock) (ip : Inode) (d : Disk) (ip' : Inode) (d' : Disk) (ip'' : Inode) (d'' : Disk)
    → Keeps sb ip d ip' d'
    → Keeps sb ip' d' ip'' d''
    → Keeps sb ip d ip'' d''
Keeps-trans sb ip d ip' d' ip'' d'' k l = record {
  file = l.file;
  reserved = l.reserved;
  same_content = λ p h. l.same_content p h ∙ k.same_content p h;
  same_size = l.same_size ∙ k.same_size;
  no_fewer = λ s h n. l.no_fewer s h (λ z. n (sym (k.no_fewer s h n) ∙ z)) ∙ k.no_fewer s h n;
  same_inum = l.same_inum ∙ k.same_inum;
  old_or_free = λ s h. elim (l.old_or_free s h) [
    | inl e ↦ elim (k.old_or_free s h) [
      | inl f ↦ inl (e ∙ f)
      | inr (k', f) ↦ inr (subst (λ x. x < sb.size) (sym e) k', ap (used sb d) e ∙ f)
    ]
    | inr (k', e) ↦
        inr (k', unused_before sb d d' (slot ip'' d'' s) (k.still_used (slot ip'' d'' s) k') e)
  ];
  still_used = λ x h u. l.still_used x h (k.still_used x h u);
  others = λ x h u b n.
      l.others x h (k.still_used x h u) b (elim (k.old_or_free 12 (omega arith)) [
        | inl f ↦ λ z. n (z ∙ f)
        | inr (_, f) ↦ used_apart sb d x (slot ip' d' 12) u f
      ])
      ∙ k.others x h u b n;
}
