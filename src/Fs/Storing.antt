-- ===== src/Fs/Storing.antt =====
-- What a round of `writei` of kernel/fs.c leaves in a file.
use mathlib.Core.Path.{subst}
use csci5103_lab.Common.{
  ℕ, ◌+◌, ◌-◌, ◌*◌, ◌/◌, ◌%◌, ◌≤◌, ◌<◌, ◌≡◌, ◌≢◌, ◌⊎◌, inl, inr, refl, sym, ap, ◌∙◌, arith, Bool,
  true, false, put, put_ne, ◌==◌, if◌then◌else◌, Bool-cases, ==_iff, differ,
}
use csci5103_lab.Memory.{in_range}
use csci5103_lab.Fs.Itable.{Inode}
use csci5103_lab.Fs.Blocks.{Superblock, Block, Disk, bsize, bblock}
use csci5103_lab.Fs.Bitmap.{used, IsReserved}
use csci5103_lab.Fs.Bmap.{Mapped, addr_at}
use csci5103_lab.Fs.Slots.{
  nslots, slot, slot_low, block_slot, block_slot_lt, block_slot_ne, byte_of, byte_of-nonzero,
  content, IsFile, Keeps,
}
use csci5103_lab.Fs.Allocation.{used_apart, unused_before}
use csci5103_lab.Fs.Placement.{Maps}
use csci5103_lab.Fs.Writing.{used-write, slot-write, write-IsReserved, write-IsFile, byte-write}
use csci5103_lab.Fs.Content.{maxfile}

-- `either_copyin` succeeds, and puts the bytes of the source into the buffer.
abbrev pub CopiesIn : (Block → ℕ → ℕ → ℕ → Bool × Block) → (ℕ → ℕ) → Type 0
CopiesIn either_copyin source =
    (block : Block) (at src m : ℕ)
    → ((either_copyin block at src m).0 ≡ true)
      × ((i : ℕ)
          → (either_copyin block at src m).1 i
            ≡ (if in_range at m i then source (src + (i - at)) else block i))

-- The content with `n` bytes of a source in the place of those from `off` on
abbrev pub overwrite : (ℕ → ℕ) → ℕ → (ℕ → ℕ) → ℕ → ℕ → (ℕ → ℕ)
overwrite old off source src n p = if in_range off n p then source (src + (p - off)) else old p

-- Bytes in the block of `off`, and in others
block_slot-inj : (a b : ℕ) → block_slot a ≡ block_slot b → a ≡ b
block_slot-inj a b e = ground (arith, e)

range_in_block :
    (off m p : ℕ)
    → p / bsize ≡ off / bsize
    → in_range (off % bsize) m (p % bsize) ≡ in_range off m p
range_in_block off m p e = ground (arith, e)

index_in_block :
    (off m p : ℕ)
    → p / bsize ≡ off / bsize
    → in_range off m p ≡ true
    → p % bsize - off % bsize ≡ p - off
index_in_block off m p e f = ground (arith, e, f)

range_elsewhere :
    (off m p : ℕ) → p / bsize ≢ off / bsize → m ≤ bsize - off % bsize → in_range off m p ≡ false
range_elsewhere off m p n h = ground (arith, n, h)

module _ (sb : Superblock) (source : ℕ → ℕ) where
  -- A file after `tot` bytes
  pub record Stored (ip : Inode) (d : Disk) (off src tot : ℕ) (ip' : Inode) (d' : Disk)
      : Type 0 where
    pub file : IsFile sb ip' d'
    pub reserved : IsReserved sb d'
    pub stored :
        (p : ℕ)
        → p < maxfile * bsize
        → content ip' d' p ≡ overwrite (content ip d) off source src tot p
    pub same_size : ip'.size ≡ ip.size
    pub same_inum : ip'.inum ≡ ip.inum
    pub old_or_free :
        (s : ℕ)
        → s < nslots
        → (slot ip' d' s ≡ slot ip d s)
          ⊎ ((slot ip' d' s < sb.size) × (used sb d (slot ip' d' s) ≡ 0))
    pub no_fewer : (s : ℕ) → s < nslots → slot ip d s ≢ 0 → slot ip' d' s ≢ 0
    pub filled :
        (p : ℕ)
        → p < maxfile * bsize
        → in_range off tot p ≡ true
        → slot ip' d' (block_slot (p / bsize)) ≢ 0
    pub still_used : (x : ℕ) → x < sb.size → used sb d x ≡ 1 → used sb d' x ≡ 1
    pub others :
        (x : ℕ)
        → x < sb.size
        → used sb d x ≡ 1
        → ((j : ℕ) → j < sb.size → x ≢ bblock sb j)
        → ((s : ℕ) → s < nslots → x ≢ slot ip d s)
        → d' x ≡ d x

  -- One block
  pub step-Stored :
      (ip : Inode) (d : Disk) (off src m : ℕ) (r : Mapped) (x : Block)
      → 0 < m
      → m ≤ bsize - off % bsize
      → off < maxfile * bsize
      → Maps sb ip d (block_slot (off / bsize)) r
      → r.addr ≢ 0
      → ((i : ℕ)
          → x i ≡ (
              if in_range (off % bsize) m i
              then source (src + (i - off % bsize))
              else r.disk r.addr i))
      → Stored ip d off src m r.inode (put r.disk r.addr x)
  step-Stored ip d off src m r x some_bytes h k maps n bytes = record {
    file = write-IsFile sb r.inode r.disk file ok r.addr x no_bitmap direct;
    reserved = write-IsReserved sb r.inode r.disk file ok r.addr x no_bitmap direct;
    stored = λ p l.
        byte-write sb r.inode r.disk file ok r.addr x no_bitmap direct s (block_slot (p / bsize))
          (p % bsize) s_lt (block_slot_lt (p / bsize) (omega (arith, l))) n maps.at_slot
        ∙ new_byte p l;
    same_size = maps.keeps.same_size;
    same_inum = maps.keeps.same_inum;
    old_or_free = λ t l. elim (maps.keeps.old_or_free t l) [
      | inl e ↦ inl (unmoved t ∙ e)
      | inr (i, e) ↦
          inr (subst (λ b. b < sb.size) (sym (unmoved t)) i, ap (used sb d) (unmoved t) ∙ e)
    ];
    no_fewer = λ t l n' z. n' (sym (maps.keeps.no_fewer t l n') ∙ sym (unmoved t) ∙ z);
    filled = λ p l e z.
        let same : p / bsize ≡ off / bsize = ground (arith, e, h) in
        n (
          maps.at_slot
          ∙ ap (λ b. slot r.inode r.disk (block_slot b)) (sym same)
          ∙ sym (unmoved (block_slot (p / bsize)))
          ∙ z);
    still_used = λ y l u.
        used-write sb r.inode r.disk file ok r.addr x no_bitmap direct y l
        ∙ maps.keeps.still_used y l u;
    others = λ y l u b o.
        put_ne r.disk r.addr y x (λ z. elim (maps.keeps.old_or_free s s_lt) [
          | inl e ↦ o s s_lt (z ∙ maps.at_slot ∙ e)
          | inr (_, e) ↦ used_apart sb d y (slot r.inode r.disk s) u e (z ∙ maps.at_slot)
        ])
        ∙ maps.keeps.others y l u b (o 12 (omega arith));
  }
    where
      s : ℕ
      s = block_slot (off / bsize)

      file : IsFile sb r.inode r.disk
      file = maps.keeps.file

      ok : IsReserved sb r.disk
      ok = maps.keeps.reserved

      s_lt : s < nslots
      s_lt = block_slot_lt (off / bsize) (omega (arith, k))

      nonzero : slot r.inode r.disk s ≢ 0
      nonzero z = n (maps.at_slot ∙ z)

      no_bitmap : (j : ℕ) → j < sb.size → r.addr ≢ bblock sb j
      no_bitmap j l z = file.no_bitmap s j s_lt nonzero l (sym maps.at_slot ∙ z)

      direct : r.addr ≢ addr_at r.inode 12
      direct z = block_slot_ne (off / bsize) (
          file.distinct s 12 s_lt (omega arith) nonzero
            (sym maps.at_slot ∙ z ∙ sym (slot_low r.inode r.disk 12 (omega arith))))

      unmoved : (t : ℕ) → slot r.inode (put r.disk r.addr x) t ≡ slot r.inode r.disk t
      unmoved = slot-write sb r.inode r.disk file ok r.addr x no_bitmap direct

      old_byte : (p : ℕ) → p < maxfile * bsize → content r.inode r.disk p ≡ content ip d p
      old_byte p l = maps.keeps.same_content p l

      new_byte :
          (p : ℕ)
          → p < maxfile * bsize
          → (if block_slot (p / bsize) == s then x (p % bsize) else content r.inode r.disk p)
            ≡ overwrite (content ip d) off source src m p
      new_byte p l = elim (Bool-cases (block_slot (p / bsize) == s)) [
        | inr e ↦
            let n' : p / bsize ≢ off / bsize = λ z. differ e ((==_iff _ s).1 (ap block_slot z)) in
            rw (e, range_elsewhere off m p n' h) (old_byte p l)
        | inl e ↦
            let same : p / bsize ≡ off / bsize = block_slot-inj _ _ ((==_iff _ s).0 e) in
            let here : r.disk r.addr (p % bsize) ≡ content ip d p =
              sym (byte_of-nonzero r.disk (p % bsize) n)
              ∙ ap (λ b. byte_of r.disk b (p % bsize))
                  (maps.at_slot ∙ ap (slot r.inode r.disk) (sym ((==_iff _ s).0 e)))
              ∙ old_byte p l in
            rw e (
              bytes (p % bsize)
              ∙ ap
                  (λ c.
                    if c
                    then source (src + (p % bsize - off % bsize))
                    else r.disk r.addr (p % bsize))
                  (range_in_block off m p same)
              ∙ elim (Bool-cases (in_range off m p)) [
                | inl f ↦ rw f (ap (λ i. source (src + i)) (index_in_block off m p same f))
                | inr f ↦ rw f here
              ])
      ]

  overwrite-overwrite :
      (old : ℕ → ℕ) (off src m n p : ℕ)
      → overwrite (overwrite old off source src m) (off + m) source (src + m) n p
        ≡ overwrite old off source src (m + n) p
  overwrite-overwrite old off src m n p = elim (Bool-cases (in_range (off + m) n p)) [
    | inl e ↦
        let both : in_range off (m + n) p ≡ true = ground (arith, e) in
        let index : src + m + (p - (off + m)) ≡ src + (p - off) = ground (arith, e) in
        rw (e, both) (ap source index)
    | inr e ↦
        let same : in_range off (m + n) p ≡ in_range off m p = ground (arith, e) in
        rw (e, same) refl
  ]

  pub Stored-trans :
      (ip : Inode) (d : Disk) (off src m n : ℕ) (ip' : Inode) (d' : Disk) (ip'' : Inode)
      (d'' : Disk)
      → Stored ip d off src m ip' d'
      → Stored ip' d' (off + m) (src + m) n ip'' d''
      → Stored ip d off src (m + n) ip'' d''
  Stored-trans ip d off src m n ip' d' ip'' d'' k l = record {
    file = l.file;
    reserved = l.reserved;
    stored = λ p h.
        l.stored p h
        ∙ ap (λ c. if in_range (off + m) n p then source (src + m + (p - (off + m))) else c)
            (k.stored p h)
        ∙ overwrite-overwrite (content ip d) off src m n p;
    same_size = l.same_size ∙ k.same_size;
    same_inum = l.same_inum ∙ k.same_inum;
    old_or_free = λ s h. elim (l.old_or_free s h) [
      | inl e ↦ elim (k.old_or_free s h) [
        | inl f ↦ inl (e ∙ f)
        | inr (i, f) ↦ inr (subst (λ x. x < sb.size) (sym e) i, ap (used sb d) e ∙ f)
      ]
      | inr (i, e) ↦
          inr (i, unused_before sb d d' (slot ip'' d'' s) (k.still_used (slot ip'' d'' s) i) e)
    ];
    no_fewer = λ s h n'. l.no_fewer s h (k.no_fewer s h n');
    filled = λ p h e. elim (Bool-cases (in_range off m p)) [
      | inl f ↦
          l.no_fewer (block_slot (p / bsize)) (block_slot_lt (p / bsize) (omega (arith, h)))
            (k.filled p h f)
      | inr f ↦ l.filled p h (ground (arith, e, f))
    ];
    still_used = λ x h u. l.still_used x h (k.still_used x h u);
    others = λ x h u b o.
        l.others x h (k.still_used x h u) b (λ s i z. elim (k.old_or_free s i) [
          | inl f ↦ o s i (z ∙ f)
          | inr (_, f) ↦ used_apart sb d x (slot ip' d' s) u f z
        ])
        ∙ k.others x h u b o;
  }

  pub nothing-Stored :
      (ip : Inode) (d : Disk) (off src : ℕ) (ip' : Inode) (d' : Disk)
      → Keeps sb ip d ip' d'
      → Stored ip d off src 0 ip' d'
  nothing-Stored ip d off src ip' d' k = record {
    file = k.file;
    reserved = k.reserved;
    stored = λ p h.
        let empty : in_range off 0 p ≡ false = ground arith in
        k.same_content p h
        ∙ sym (ap (λ c. if c then source (src + (p - off)) else content ip d p) empty);
    same_size = k.same_size;
    same_inum = k.same_inum;
    old_or_free = k.old_or_free;
    no_fewer = λ s h n' z. n' (sym (k.no_fewer s h n') ∙ z);
    filled = λ p h e. absurd (ground (arith, e));
    still_used = k.still_used;
    others = λ x h u b o. k.others x h u b (o 12 (omega arith));
  }
