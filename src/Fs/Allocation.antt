-- ===== src/Fs/Allocation.antt =====
-- `balloc` and `bfree` of kernel/fs.c on the set of blocks in use.
use mathlib.Core.Path.{subst}
use csci5103_lab.Common.Bit.{bit, bit_lt}
use csci5103_lab.Common.{
  ℕ, zero, suc, ◌+◌, ◌-◌, ◌*◌, ◌/◌, ◌%◌, ◌≤◌, ◌<◌, ◌≡◌, ◌≢◌, inl, inr, refl, sym, ap, ◌∙◌, arith,
  false, Option, none, some, put, put_self, put_ne, ltb, ◌==◌, ==_iff, ltb-true_lt, ltb-false_le,
  if◌then◌else◌, Bool-cases,
}
use csci5103_lab.Fs.Blocks.{
  Superblock, bpb, Block, Disk, bblock, bzero, is_free, mark, take_free, balloc_loop, balloc, bfree,
}
use csci5103_lab.Fs.Bitmap.{
  used, used-mark, used-unmark, is_free-used, IsReserved, Finds, one, no_one, find_free-Finds,
  Allocates, fresh, exhausted,
}

-- Blocks in use, and others, are different blocks.
pub used_apart : (sb : Superblock) (d : Disk) (x t : ℕ) → used sb d x ≡ 1 → used sb d t ≡ 0 → x ≢ t
used_apart sb d x t e f z =
    let same : used sb d x ≡ used sb d t = ap (used sb d) z in absurd (omega (arith, e, f, same))

-- A free block was free before, where no block in use became free.
pub unused_before :
    (sb : Superblock) (d d' : Disk) (x : ℕ)
    → (used sb d x ≡ 1 → used sb d' x ≡ 1)
    → used sb d' x ≡ 0
    → used sb d x ≡ 0
unused_before sb d d' x still e = elim (Bool-cases (used sb d x == 1)) [
  | inl u ↦ let now = still ((==_iff (used sb d x) 1).0 u) in absurd (omega (arith, now, e))
  | inr u ↦ ground (arith, u, bit_lt (d (bblock sb x) (x % bpb / 8)) (x % 8))
]

module _ (sb : Superblock) (d : Disk) (ok : IsReserved sb d) where
  abbrev taken : ℕ → Disk
  taken t = bzero t (put d (bblock sb t) (mark (d (bblock sb t)) (t % bpb)))

  taken-Allocates : (t : ℕ) → t < sb.size → used sb d t ≡ 0 → Allocates sb d (t, taken t)
  unfolding bzero
  taken-Allocates t h e =
      let marked = put d (bblock sb t) (mark (d (bblock sb t)) (t % bpb)) in
      fresh (λ z. used_apart sb d 0 t ok.first e (sym z)) h e
        (λ j k.
          ap (λ (x : Block). bit (x (j % bpb / 8)) (j % 8))
            (put_ne marked t (bblock sb j) (λ _. 0)
              (used_apart sb d (bblock sb j) t (ok.bitmap j k) e))
          ∙ used-mark sb d t j)
        (λ i. ap (λ (x : Block). x i) (put_self marked t (λ _. 0)))
        (λ x n m. put_ne marked t x (λ _. 0) n ∙ put_ne d (bblock sb t) x _ m)

  free_test :
      (b i j : ℕ)
      → bblock sb j ≡ bblock sb b
      → j % bpb ≡ i
      → is_free (d (bblock sb b)) i ≡ (used sb d j == 0)
  free_test b i j block index =
      ap (λ x. is_free (d x) i) (sym block)
      ∙ ap (is_free (d (bblock sb j))) (sym index)
      ∙ is_free-used sb d j

  -- A round of the outer loop of `balloc`
  take_free-Allocates :
      (b n : ℕ) (r : Option ℕ) (rest : ℕ × Disk)
      → b % bpb ≡ 0
      → n ≤ bpb
      → Finds sb (d (bblock sb b)) b 0 n r
      → (((j : ℕ) → b ≤ j → j < b + n → j < sb.size → used sb d j ≡ 1) → Allocates sb d rest)
      → Allocates sb d (take_free sb d b r rest)
  take_free-Allocates b n _ rest e small (one {i} _ h k f) later =
      let block : bblock sb (b + i) ≡ bblock sb b = omega (arith, e, h, small) in
      let index : (b + i) % bpb ≡ i = omega (arith, e, h, small) in
      let free : used sb d (b + i) ≡ 0 =
        (==_iff _ 0).0 (sym (free_test b i (b + i) block index) ∙ f) in
      subst (λ x. Allocates sb d (b + i, bzero (b + i) (put d x (mark (d x) i)))) block
        (subst
          (λ x.
            Allocates sb d
              (b + i, bzero (b + i) (put d (bblock sb (b + i)) (mark (d (bblock sb (b + i))) x))))
          index (taken-Allocates (b + i) k free))
  take_free-Allocates b n _ rest e small (no_one g) later = later (λ j h k l.
      let split : b + (j - b) ≡ j = omega (arith, h) in
      let used_now : (used sb d j == 0) ≡ false =
        sym (free_test b (j - b) j (omega (arith, e, h, k, small)) (omega (arith, e, h, k, small)))
        ∙ g (j - b) (omega arith) (omega (arith, h, k)) (omega (arith, split, l)) in
      ground (arith, used_now, bit_lt (d (bblock sb j) (j % bpb / 8)) (j % 8)))

  balloc_loop-Allocates :
      (n b : ℕ)
      → b % bpb ≡ 0
      → sb.size < b + n * bpb
      → ((j : ℕ) → j < b → j < sb.size → used sb d j ≡ 1)
      → Allocates sb d (balloc_loop sb d b n)
  unfolding balloc_loop
  balloc_loop-Allocates zero b e h g = exhausted (λ j k. g j (omega (arith, h, k)) k)
  balloc_loop-Allocates (suc n) b e h g = elim (Bool-cases (ltb b sb.size)) [
    | inl f ↦ rw f (
        take_free-Allocates b bpb _ _ e (omega arith) (find_free-Finds sb (d (bblock sb b)) b 0 bpb)
          (λ all. balloc_loop-Allocates n (b + bpb) (omega (arith, e)) (omega (arith, h)) (λ j k l.
            elim (Bool-cases (ltb j b)) [
              | inl before ↦ g j (ltb-true_lt j b before) l
              | inr behind ↦ all j (ltb-false_le j b behind) k l
            ])))
    | inr f ↦
        let beyond = ltb-false_le b sb.size f in
        rw f (exhausted (λ j k. g j (omega (arith, k, beyond)) k))
  ]

-- Where block 0 and the blocks of the bitmap are in use: `balloc` gives a block that was free, which is then in use
-- and zeroed; no other block but one of the bitmap changes, and no other becomes in use or free. It
-- gives 0 only if all blocks are in use, and changes nothing then.
pub balloc-Allocates : (sb : Superblock) (d : Disk) → IsReserved sb d → Allocates sb d (balloc sb d)
unfolding balloc
balloc-Allocates sb d ok =
    balloc_loop-Allocates sb d ok (sb.size / bpb + 1) 0 refl (omega arith)
      (λ j h k. absurd (omega (arith, h)))

-- What `bfree` gives
abbrev pub Frees : Superblock → Disk → ℕ → Option Disk → Type 0
Frees sb d b none = used sb d b ≡ 0
Frees sb d b (some d') =
    (used sb d b ≡ 1)
    × ((j : ℕ) → used sb d' j ≡ (if j == b then 0 else used sb d j))
    × ((x : ℕ) → x ≢ bblock sb b → d' x ≡ d x)

-- `bfree` panics on a block that is free; of a block in use it clears the bit, no other bit, and changes
-- only the block of the bitmap that has the bit.
pub bfree-Frees : (sb : Superblock) (d : Disk) (b : ℕ) → Frees sb d b (bfree sb b d)
unfolding bfree
bfree-Frees sb d b = elim (Bool-cases (used sb d b == 0)) [
  | inl e ↦ rw (is_free-used sb d b, e) ((==_iff _ 0).0 e)
  | inr e ↦
      rw (is_free-used sb d b, e)
        (
          ground (arith, e, bit_lt (d (bblock sb b) (b % bpb / 8)) (b % 8)),
          used-unmark sb d b,
          (λ x n. put_ne d (bblock sb b) x _ n),
        )
]
