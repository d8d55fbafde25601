-- ===== src/Fs/Bitmap.antt =====
-- The bitmap of kernel/fs.c as a set of blocks.
use mathlib.Core.Path.{subst}
use native.Mathlib.Omega.{pow_step}
use csci5103_lab.Common.Bit.{
  bit, bit_lt, bit-bit_and, bit-bit_or, bit-power, bit-complement, bit_and-power,
}
use csci5103_lab.Common.{
  ℕ, zero, suc, ◌+◌, ◌-◌, ◌/◌, ◌%◌, ◌^◌, ◌≤◌, ◌<◌, ◌≡◌, ◌≢◌, inl, inr, refl, sym, ap, ◌∙◌, arith,
  true, false, Option, none, some, bit_and, bit_or, put, ltb, ◌==◌, ==_iff, ltb-true_lt,
  ltb-false_le, if◌then◌else◌, Bool-cases,
}
use csci5103_lab.Fs.Blocks.{
  Superblock, bpb, Block, Disk, bblock, iblock, is_free, mark, unmark, find_free,
}

-- 1 for a block in use
abbrev pub used : Superblock → Disk → ℕ → ℕ
used sb d j = bit (d (bblock sb j) (j % bpb / 8)) (j % 8)

-- A change of one bit
module _ (sb : Superblock) (d : Disk) (t y v : ℕ)
    (changed : (k : ℕ)
      → k < 8
      → bit y k ≡ (if k == t % 8 then v else bit (d (bblock sb t) (t % bpb / 8)) k)) where
  abbrev with_byte : Disk
  with_byte = put d (bblock sb t) (put (d (bblock sb t)) (t % bpb / 8) y)

  used-with_byte : (j : ℕ) → used sb with_byte j ≡ (if j == t then v else used sb d j)
  used-with_byte j = elim (Bool-cases (bblock sb j == bblock sb t)) [
    | inl e ↦
        let same_block : bblock sb j ≡ bblock sb t = (==_iff _ _).0 e in
        elim (Bool-cases (j % bpb / 8 == t % bpb / 8)) [
          | inl f ↦
              let same_byte : j % bpb / 8 ≡ t % bpb / 8 = (==_iff _ _).0 f in
              let test : (j % 8 == t % 8) ≡ (j == t) = ground (arith, same_block, same_byte) in
              let byte : d (bblock sb t) (t % bpb / 8) ≡ d (bblock sb j) (j % bpb / 8) =
                ap (λ b. d b (t % bpb / 8)) (sym same_block)
                ∙ ap (d (bblock sb j)) (sym same_byte) in
              rw (e, f)
                (changed (j % 8) (omega arith)
                  ∙ ap (λ b. if b then v else bit (d (bblock sb t) (t % bpb / 8)) (j % 8)) test
                  ∙ ap (λ z. if j == t then v else bit z (j % 8)) byte)
          | inr f ↦
              let differs : (j == t) ≡ false = ground (arith, f) in
              rw (e, f, differs) (ap (λ b. bit (d b (j % bpb / 8)) (j % 8)) (sym same_block))
        ]
    | inr e ↦ let differs : (j == t) ≡ false = ground (arith, e) in rw (e, differs) refl
  ]

byte_complement : (k : ℕ) → k < 8 → 2 ^ k + (255 - 2 ^ k) + 1 ≡ 2 ^ 8
byte_complement zero h = refl
byte_complement (suc zero) h = refl
byte_complement (suc (suc zero)) h = refl
byte_complement (suc (suc (suc zero))) h = refl
byte_complement (suc (suc (suc (suc zero)))) h = refl
byte_complement (suc (suc (suc (suc (suc zero))))) h = refl
byte_complement (suc (suc (suc (suc (suc (suc zero)))))) h = refl
byte_complement (suc (suc (suc (suc (suc (suc (suc zero))))))) h = refl
byte_complement (suc (suc (suc (suc (suc (suc (suc (suc k)))))))) h = absurd (omega (arith, h))

bit-unmark :
    (x t k : ℕ)
    → k < 8
    → bit (bit_and x (255 - 2 ^ (t % 8))) k ≡ (if k == t % 8 then 0 else bit x k)
bit-unmark x t k h =
    let m = t % 8 in
    let other : bit (2 ^ m) k + bit (255 - 2 ^ m) k ≡ 1 =
      bit-complement 8 (2 ^ m) (255 - 2 ^ m) k (byte_complement m (omega arith)) h in
    ground (arith, bit-bit_and x (255 - 2 ^ m) k, bit-power m k, other, bit_lt x k)

bit-mark : (x t k : ℕ) → bit (bit_or x (2 ^ (t % 8))) k ≡ (if k == t % 8 then 1 else bit x k)
bit-mark x t k = ground (arith, bit-bit_or x (2 ^ (t % 8)) k, bit-power (t % 8) k, bit_lt x k)

low_bits : (t : ℕ) → t % bpb % 8 ≡ t % 8
low_bits t = omega arith

pub used-mark :
    (sb : Superblock) (d : Disk) (t j : ℕ)
    → used sb (put d (bblock sb t) (mark (d (bblock sb t)) (t % bpb))) j
      ≡ (if j == t then 1 else used sb d j)
used-mark sb d t = used-with_byte sb d t _ 1 (λ k h.
    ap (λ i. bit (bit_or (d (bblock sb t) (t % bpb / 8)) (2 ^ i)) k) (low_bits t)
    ∙ bit-mark (d (bblock sb t) (t % bpb / 8)) t k)

pub used-unmark :
    (sb : Superblock) (d : Disk) (t j : ℕ)
    → used sb (put d (bblock sb t) (unmark (d (bblock sb t)) (t % bpb))) j
      ≡ (if j == t then 0 else used sb d j)
used-unmark sb d t = used-with_byte sb d t _ 0 (λ k h.
    ap (λ i. bit (bit_and (d (bblock sb t) (t % bpb / 8)) (255 - 2 ^ i)) k) (low_bits t)
    ∙ bit-unmark (d (bblock sb t) (t % bpb / 8)) t k h)

pow_positive : (n : ℕ) → 0 < 2 ^ n
pow_positive zero = omega arith
pow_positive (suc n) = omega (arith, pow_positive n, pow_step 2 n)

pub is_free-used :
    (sb : Superblock) (d : Disk) (t : ℕ) → is_free (d (bblock sb t)) (t % bpb) ≡ (used sb d t == 0)
is_free-used sb d t =
    let x = d (bblock sb t) (t % bpb / 8) in
    let masked : bit_and x (2 ^ (t % bpb % 8)) ≡ (if bit x (t % 8) == 0 then 0 else 2 ^ (t % 8)) =
      ap (λ i. bit_and x (2 ^ i)) (low_bits t) ∙ bit_and-power x (t % 8) in
    ground (arith, masked, pow_positive (t % 8))

-- The blocks of the bitmap and of the inodes are inside the disk and apart, and they and block 0 are in use.
pub record IsReserved (sb : Superblock) (d : Disk) : Type 0 where
  pub first : used sb d 0 ≡ 1
  pub bitmap : (j : ℕ) → j < sb.size → used sb d (bblock sb j) ≡ 1
  pub bitmap_inside : (j : ℕ) → j < sb.size → bblock sb j < sb.size
  pub inodes : (i : ℕ) → i < sb.ninodes → used sb d (iblock sb i) ≡ 1
  pub inodes_inside : (i : ℕ) → i < sb.ninodes → iblock sb i < sb.size
  pub apart : (i j : ℕ) → i < sb.ninodes → j < sb.size → iblock sb i ≢ bblock sb j
  pub inodes_after_boot : 0 < sb.inodestart
  pub nonempty : 0 < sb.size
  pub small : sb.size ≤ 2 ^ 32

-- What a search for a free block finds
pub data Finds (sb : Superblock) (block : Block) (b bi n : ℕ) : Option ℕ → Type 0 where
  one :
      {i : ℕ}
      → bi ≤ i
      → i < bi + n
      → b + i < sb.size
      → is_free block i ≡ true
      → Finds sb block b bi n (some i)
  no_one :
      ((i : ℕ) → bi ≤ i → i < bi + n → b + i < sb.size → is_free block i ≡ false)
      → Finds sb block b bi n none

step-Finds :
    (sb : Superblock) (block : Block) (b bi n : ℕ) (r : Option ℕ)
    → is_free block bi ≡ false
    → Finds sb block b (bi + 1) n r
    → Finds sb block b bi (suc n) r
step-Finds sb block b bi n _ e (one h k l f) = one (omega (arith, h)) (omega (arith, k)) l f
step-Finds sb block b bi n _ e (no_one g) = no_one (λ i h k l. elim (Bool-cases (i == bi)) [
  | inl same ↦ subst (λ x. is_free block x ≡ false) (sym ((==_iff i bi).0 same)) e
  | inr other ↦ g i (ground (arith, h, other)) (omega (arith, k)) l
])

pub find_free-Finds :
    (sb : Superblock) (block : Block) (b bi n : ℕ)
    → Finds sb block b bi n (find_free sb block b bi n)
unfolding find_free
find_free-Finds sb block b bi zero = no_one (λ i h k l. absurd (omega (arith, h, k)))
find_free-Finds sb block b bi (suc n) = elim (Bool-cases (ltb (b + bi) sb.size)) [
  | inl e ↦ elim (Bool-cases (is_free block bi)) [
    | inl f ↦ rw (e, f) (one (omega arith) (omega arith) (ltb-true_lt _ _ e) f)
    | inr f ↦ rw (e, f) (step-Finds sb block b bi n _ f (find_free-Finds sb block b (bi + 1) n))
  ]
  | inr e ↦
      let beyond = ltb-false_le (b + bi) sb.size e in
      rw e (no_one (λ i h k l. absurd (omega (arith, h, l, beyond))))
]

-- What `balloc` gives: a block that was free, zeroed and in use now; or none was free.
pub data Allocates (sb : Superblock) (d : Disk) : ℕ × Disk → Type 0 where
  fresh :
      {b : ℕ} {d' : Disk}
      → b ≢ 0
      → b < sb.size
      → used sb d b ≡ 0
      → ((j : ℕ) → j < sb.size → used sb d' j ≡ (if j == b then 1 else used sb d j))
      → ((i : ℕ) → d' b i ≡ 0)
      → ((x : ℕ) → x ≢ b → x ≢ bblock sb b → d' x ≡ d x)
      → Allocates sb d (b, d')
  exhausted : ((j : ℕ) → j < sb.size → used sb d j ≡ 1) → Allocates sb d (0, d)
