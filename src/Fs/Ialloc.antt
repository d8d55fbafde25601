-- ===== src/Fs/Ialloc.antt =====
-- What `ialloc` of kernel/fs.c finds.
use csci5103_lab.Common.{
  ℕ, zero, suc, ◌+◌, ◌-◌, ◌*◌, ◌%◌, ◌≤◌, ◌<◌, ◌≡◌, ◌≢◌, ◌⊎◌, inl, inr, refl, sym, ap, ◌∙◌, arith,
  true, false, Option, none, some, put, put_self, put_ne, ltb, ltb-true_lt, ltb-false_le, ◌==◌,
  if◌then◌else◌, Bool-cases, ==_iff, differ,
}
use csci5103_lab.Memory.{in_range}
use csci5103_lab.Fs.Blocks.{Superblock, Block, Disk, iblock}
use csci5103_lab.Fs.Content.{byte}
use csci5103_lab.Fs.Truncate.{disk_type, new_dinode, ialloc_loop, ialloc}

-- A free inode and the disk where it has a type, or there is none from `inum` on.
pub data Chooses (sb : Superblock) (type_ : ℕ) (d : Disk) (inum : ℕ)
    : Option (ℕ × Disk) → Type 0 where
  one :
      {i : ℕ} {d' : Disk}
      → inum ≤ i
      → i < sb.ninodes
      → disk_type sb i d ≡ 0
      → ((j : ℕ) → inum ≤ j → j < i → disk_type sb j d ≢ 0)
      → disk_type sb i d' ≡ type_
      → ((k : ℕ) → 2 ≤ k → k < 64 → d' (iblock sb i) (64 * (i % 16) + k) ≡ 0)
      → ((x k : ℕ) → (x ≢ iblock sb i) ⊎ (in_range (64 * (i % 16)) 64 k ≡ false) → d' x k ≡ d x k)
      → Chooses sb type_ d inum (some (i, d'))
  no_one :
      ((j : ℕ) → inum ≤ j → j < sb.ninodes → disk_type sb j d ≢ 0) → Chooses sb type_ d inum none

module _ (sb : Superblock) (type_ : ℕ) (d : Disk) where
  extend :
      (inum bound : ℕ)
      → disk_type sb inum d ≢ 0
      → ((j : ℕ) → inum + 1 ≤ j → j < bound → disk_type sb j d ≢ 0)
      → (j : ℕ) → inum ≤ j
      → j < bound
      → disk_type sb j d ≢ 0
  extend inum bound n later j h l = elim (Bool-cases (j == inum)) [
    | inl e ↦ λ z. n (ap (λ i. disk_type sb i d) (sym ((==_iff j inum).0 e)) ∙ z)
    | inr e ↦ later j (ground (arith, h, e)) l
  ]

  skip-Chooses :
      (inum : ℕ) (r : Option (ℕ × Disk))
      → disk_type sb inum d ≢ 0
      → Chooses sb type_ d (inum + 1) r
      → Chooses sb type_ d inum r
  skip-Chooses inum _ n (one {i} h k e before t zeros others) =
      one (omega (arith, h)) k e (extend inum i n before) t zeros others
  skip-Chooses inum _ n (no_one all) = no_one (extend inum sb.ninodes n all)

  take-Chooses :
      (inum : ℕ)
      → type_ < 65536
      → inum < sb.ninodes
      → disk_type sb inum d ≡ 0
      → Chooses sb type_ d inum (
          some (
            inum,
            put d (iblock sb inum) (new_dinode (d (iblock sb inum)) (64 * (inum % 16)) type_),
          ))
  take-Chooses inum small h e =
      one (omega arith) h e (λ j i l. absurd (omega (arith, i, l))) type_set zeros others
    where
      at : ℕ
      at = 64 * (inum % 16)

      block : Block
      block = new_dinode (d (iblock sb inum)) at type_

      two_bytes :
          (a : ℕ)
          → (if ltb (a - a) 2 then byte type_ (a - a) else 0)
              + 256 * (if ltb (a + 1 - a) 2 then byte type_ (a + 1 - a) else 0)
            ≡ type_
      two_bytes a =
          let first : a - a ≡ 0 = omega arith in
          let second : a + 1 - a ≡ 1 = omega arith in rw (first, second) (omega (arith, small))

      later_byte : (b : Block) (a k : ℕ) → 2 ≤ k → k < 64 → new_dinode b a type_ (a + k) ≡ 0
      later_byte b a k l m =
          let inside : in_range a 64 (a + k) ≡ true = ground (arith, m) in
          let beyond : ltb (a + k - a) 2 ≡ false = ground (arith, l) in rw (inside, beyond) refl

      low : in_range at 64 at ≡ true
      low = ground arith

      high : in_range at 64 (at + 1) ≡ true
      high = ground arith

      type_set : disk_type sb inum (put d (iblock sb inum) block) ≡ type_
      type_set =
          ap (λ (b : Block). b at + 256 * b (at + 1)) (put_self d (iblock sb inum) block)
          ∙ ap
              (λ b.
                (if b
                  then (if ltb (at - at) 2 then byte type_ (at - at) else 0)
                  else d (iblock sb inum) at)
                + 256 * block (at + 1))
              low
          ∙ ap
              (λ b.
                (if ltb (at - at) 2 then byte type_ (at - at) else 0)
                + 256
                  * (if b
                      then (if ltb (at + 1 - at) 2 then byte type_ (at + 1 - at) else 0)
                      else d (iblock sb inum) (at + 1)))
              high
          ∙ two_bytes at

      zeros : (k : ℕ) → 2 ≤ k → k < 64 → put d (iblock sb inum) block (iblock sb inum) (at + k) ≡ 0
      zeros k l m =
          ap (λ (b : Block). b (at + k)) (put_self d (iblock sb inum) block)
          ∙ later_byte (d (iblock sb inum)) at k l m

      others :
          (x k : ℕ)
          → (x ≢ iblock sb inum) ⊎ (in_range at 64 k ≡ false)
          → put d (iblock sb inum) block x k ≡ d x k
      others x k o = elim (Bool-cases (x == iblock sb inum)) [
        | inr f ↦
            ap (λ (b : Block). b k)
              (put_ne d (iblock sb inum) x block (λ z. differ f ((==_iff _ _).1 z)))
        | inl f ↦
            let here : x ≡ iblock sb inum = (==_iff _ _).0 f in
            ap (λ y. put d (iblock sb inum) block y k) here
            ∙ ap (λ (b : Block). b k) (put_self d (iblock sb inum) block)
            ∙ elim o [ inl n ↦ absurd (n here) | inr g ↦ rw g refl ]
            ∙ ap (λ y. d y k) (sym here)
      ]

  ialloc_loop-Chooses :
      (n inum : ℕ)
      → type_ < 65536
      → sb.ninodes ≤ inum + n
      → Chooses sb type_ d inum (ialloc_loop sb type_ n inum d)
  unfolding ialloc_loop
  ialloc_loop-Chooses zero inum small h = no_one (λ j i l. absurd (omega (arith, h, i, l)))
  ialloc_loop-Chooses (suc n) inum small h = elim (Bool-cases (ltb inum sb.ninodes)) [
    | inr e ↦
        let past = ltb-false_le inum sb.ninodes e in
        rw e (no_one (λ j i l. absurd (omega (arith, past, i, l))))
    | inl e ↦ elim (Bool-cases (disk_type sb inum d == 0)) [
      | inl f ↦ rw (e, f) (take-Chooses inum small (ltb-true_lt _ _ e) ((==_iff _ 0).0 f))
      | inr f ↦
          rw (e, f)
            (skip-Chooses inum _ (λ z. differ f ((==_iff _ 0).1 z))
              (ialloc_loop-Chooses n (inum + 1) small (omega (arith, h))))
    ]
  ]

-- Of a type below 65536: `ialloc` takes the first inode from 1 on whose type on the disk is 0, gives it the type and zeros
-- its other bytes, and changes no other byte of the disk; it returns 0 only if there is none, and it looks at all
-- inodes below `ninodes`.
pub ialloc-Chooses :
    (sb : Superblock) (type_ : ℕ) (d : Disk)
    → type_ < 65536
    → Chooses sb type_ d 1 (ialloc sb type_ d)
unfolding ialloc
ialloc-Chooses sb type_ d small = ialloc_loop-Chooses sb type_ d sb.ninodes 1 small (omega arith)
