-- ===== src/Fs/Reading.antt =====
-- `readi` of kernel/fs.c, into a memory of bytes.
use csci5103_lab.Common.{
  ℕ, zero, suc, ◌+◌, ◌-◌, ◌*◌, ◌/◌, ◌%◌, ◌≤◌, ◌<◌, ◌≡◌, ◌≢◌, ◌⊎◌, inl, inr, refl, sym, ap, ◌∙◌,
  arith, Bool, false, Option, some, ltb, ltb-true_lt, ltb-false_le, ◌==◌, if◌then◌else◌, Bool-cases,
  ==_iff, differ,
}
use csci5103_lab.Memory.{in_range}
use csci5103_lab.Fs.Itable.{Inode}
use csci5103_lab.Fs.Blocks.{Superblock, Block, Disk, bsize}
use csci5103_lab.Fs.Bitmap.{used, IsReserved}
use csci5103_lab.Fs.Bmap.{Mapped}
use csci5103_lab.Fs.Slots.{
  nslots, slot, block_slot, block_slot_lt, byte_of, byte_of-nonzero, content, IsFile, Keeps,
  Keeps-refl, Keeps-trans,
}
use csci5103_lab.Fs.Placement.{Maps}
use csci5103_lab.Fs.Mapping.{bmap-Maps}
use csci5103_lab.Fs.Content.{maxfile, chunk, Read, readi_step, readi_loop}
use csci5103_lab.Fs.Copied.{Bytes, copied, copied-copied, copied-cong, CopiesOut}

module _ (sb : Superblock) where
  -- What the loop leaves: a prefix of the bytes is copied, all of them unless a block is missing and
  -- the disk is full.
  pub record Reads (n tot off dst : ℕ) (ip : Inode) (d : Disk) (mem : Bytes) (count : ℕ)
      (r : Read Bytes) : Type 0 where
    pub returned : r.count ≡ some count
    pub least : tot ≤ count
    pub most : count ≤ n
    pub ends :
        (count ≡ n)
        ⊎ ((count < n)
            × (slot ip d (block_slot ((off + (count - tot)) / bsize)) ≡ 0)
            × ((j : ℕ) → j < sb.size → used sb r.disk j ≡ 1))
    pub memory : (x : ℕ) → r.memory x ≡ copied (content ip d) off dst (count - tot) mem x
    pub keeps : Keeps sb ip d r.inode r.disk

  module _ (either_copyout : ℕ → Block → ℕ → Bytes → Bool × Bytes)
      (copies : CopiesOut either_copyout) where
    abbrev ReadsAll : ℕ → ℕ → ℕ → ℕ → Inode → Disk → Bytes → Option (Read Bytes) → Type 0
    ReadsAll n tot off dst ip d mem result =
        (count : ℕ) × (r : Read Bytes) × (result ≡ some r) × Reads n tot off dst ip d mem count r

    nothing-Reads :
        (n tot off dst : ℕ) (ip : Inode) (d : Disk) (mem : Bytes) (ip' : Inode) (d' : Disk)
        → tot ≤ n
        → Keeps sb ip d ip' d'
        → (tot ≡ n)
          ⊎ ((tot < n)
              × (slot ip d (block_slot (off / bsize)) ≡ 0)
              × ((j : ℕ) → j < sb.size → used sb d' j ≡ 1))
        → Reads n tot off dst ip d mem tot
            (record { count = some tot; inode = ip'; disk = d'; memory = mem })
    nothing-Reads n tot off dst ip d mem ip' d' le k ends = record {
      returned = refl;
      least = omega arith;
      most = le;
      ends = elim ends [
        | inl e ↦ inl e
        | inr (lt, e, full) ↦
            let here : off + (tot - tot) ≡ off = omega arith in
            inr (lt, ap (λ (o : ℕ). slot ip d (block_slot (o / bsize))) here ∙ e, full)
      ];
      memory = λ x.
          let empty : in_range dst (tot - tot) x ≡ false = ground arith in
          sym (ap (λ c. if c then content ip d (off + (x - dst)) else mem x) empty);
      keeps = k;
    }

    was_empty :
        (ip : Inode) (d : Disk) (ip' : Inode) (d' : Disk) (s : ℕ)
        → Keeps sb ip d ip' d'
        → s < nslots
        → slot ip' d' s ≡ 0
        → slot ip d s ≡ 0
    was_empty ip d ip' d' s k h z = elim (Bool-cases (slot ip d s == 0)) [
      | inl e ↦ (==_iff (slot ip d s) 0).0 e
      | inr e ↦
          let nz : slot ip d s ≢ 0 = λ w. differ e ((==_iff (slot ip d s) 0).1 w) in
          absurd (nz (sym (k.no_fewer s h nz) ∙ z))
    ]

    -- The bytes of the block that `bmap` gives
    in_block :
        (ip : Inode) (d : Disk) (off i : ℕ) (r : Mapped)
        → r.addr ≢ 0
        → Maps sb ip d (block_slot (off / bsize)) r
        → off % bsize + i < bsize
        → off + i < maxfile * bsize
        → r.disk r.addr (off % bsize + i) ≡ content ip d (off + i)
    in_block ip d off i r nz maps h l =
        let block : (off + i) / bsize ≡ off / bsize = omega (arith, h) in
        let index : (off + i) % bsize ≡ off % bsize + i = omega (arith, h) in
        sym (byte_of-nonzero r.disk (off % bsize + i) nz)
        ∙ ap (λ a. byte_of r.disk a (off % bsize + i))
            (maps.at_slot ∙ ap (λ b. slot r.inode r.disk (block_slot b)) (sym block))
        ∙ ap (byte_of r.disk (slot r.inode r.disk (block_slot ((off + i) / bsize)))) (sym index)
        ∙ maps.keeps.same_content (off + i) l

    from_zero : (i : ℕ) → 0 + i ≡ i
    from_zero i = omega arith

    -- A round, and the rest
    next-Reads :
        (n tot off dst m count : ℕ) (ip : Inode) (d : Disk) (mem : Bytes) (ip' : Inode) (d' : Disk)
        (mem' : Bytes) (r : Read Bytes)
        → off + (n - tot) ≤ maxfile * bsize
        → tot + m ≤ n
        → Keeps sb ip d ip' d'
        → ((x : ℕ) → mem' x ≡ copied (content ip d) off dst m mem x)
        → Reads n (tot + m) (off + m) (dst + m) ip' d' mem' count r
        → Reads n tot off dst ip d mem count r
    next-Reads n tot off dst m count ip d mem ip' d' mem' r fits le k bytes l = record {
      returned = l.returned;
      least = omega (arith, l.least);
      most = l.most;
      ends = elim l.ends [
        | inl e ↦ inl e
        | inr (lt, e, full) ↦
            let place : off + m + (count - (tot + m)) ≡ off + (count - tot) =
              omega (arith, l.least) in
            let at = off + (count - tot) in
            let below : at / bsize < 268 = omega (arith, l.least, lt, fits) in
            inr (
              lt,
              was_empty ip d ip' d' (block_slot (at / bsize)) k (block_slot_lt (at / bsize) below)
                  (ap (λ (o : ℕ). slot ip' d' (block_slot (o / bsize))) (sym place) ∙ e),
              full,
            )
      ];
      memory = λ x.
          let total : m + (count - (tot + m)) ≡ count - tot = omega (arith, l.least) in
          l.memory x
          ∙ copied-cong (content ip' d') (content ip d) (off + m) (off + m) (dst + m)
              (count - (tot + m)) mem' x
              (λ i h. k.same_content (off + m + i) (omega (arith, h, l.most, l.least, fits)))
          ∙ ap
              (λ y.
                if in_range (dst + m) (count - (tot + m)) x
                then content ip d (off + m + (x - (dst + m)))
                else y)
              (bytes x)
          ∙ copied-copied (content ip d) off dst m (count - (tot + m)) mem x
          ∙ ap (λ j. copied (content ip d) off dst j mem x) total;
      keeps = Keeps-trans sb ip d ip' d' r.inode r.disk k l.keeps;
    }

    step-Reads :
        (n tot off dst m : ℕ) (ip : Inode) (d : Disk) (mem : Bytes) (r : Mapped)
        (later : Mapped → Bytes → Option (Read Bytes))
        → m ≤ bsize - off % bsize
        → off + (n - tot) ≤ maxfile * bsize
        → tot < n
        → tot + m ≤ n
        → Maps sb ip d (block_slot (off / bsize)) r
        → ((mem' : Bytes)
            → ReadsAll n (tot + m) (off + m) (dst + m) r.inode r.disk mem' (later r mem'))
        → ReadsAll n tot off dst ip d mem (readi_step sb either_copyout tot m off dst mem r later)
    step-Reads n tot off dst m ip d mem r later h fits lt le maps goes_on =
        let out = copies dst m (λ i. r.disk r.addr (off % bsize + i)) mem in
        let s_lt = block_slot_lt (off / bsize) (omega (arith, lt, fits)) in
        elim (Bool-cases (r.addr == 0)) [
          | inl e ↦
              let z = (==_iff r.addr 0).0 e in
              rw e (
                tot,
                _,
                refl,
                nothing-Reads n tot off dst ip d mem r.inode r.disk (omega (arith, lt)) maps.keeps (
                    inr (
                      lt,
                      was_empty ip d r.inode r.disk (block_slot (off / bsize)) maps.keeps s_lt
                          (sym maps.at_slot ∙ z),
                      maps.full z,
                    )),
              )
          | inr e ↦
              let nz : r.addr ≢ 0 = λ z. differ e ((==_iff r.addr 0).1 z) in
              let rest =
                goes_on (either_copyout dst (λ i. r.disk r.addr (off % bsize + i)) m mem).1 in
              rw (e, out.0)
                (
                  rest.0,
                  rest.1,
                  rest.2,
                  next-Reads n tot off dst m rest.0 ip d mem r.inode r.disk _ rest.1 fits le
                      maps.keeps
                      (λ x.
                        out.1 x
                        ∙ copied-cong (λ i. r.disk r.addr (off % bsize + i)) (content ip d) 0 off
                            dst m mem x
                            (λ i l.
                              ap (λ j. r.disk r.addr (off % bsize + j)) (from_zero i)
                              ∙ in_block ip d off i r nz maps (omega (arith, l, h))
                                  (omega (arith, l, lt, le, fits))))
                      rest.3,
                )
        ]

    pub readi_loop-Reads :
        (k n tot off dst : ℕ) (ip : Inode) (d : Disk) (mem : Bytes)
        → n - tot < k
        → tot ≤ n
        → off + (n - tot) ≤ maxfile * bsize
        → IsFile sb ip d
        → IsReserved sb d
        → ReadsAll n tot off dst ip d mem (readi_loop sb either_copyout k n tot off dst ip d mem)
    unfolding readi_loop
    readi_loop-Reads zero n tot off dst ip d mem h le fits file ok = absurd (omega (arith, h))
    readi_loop-Reads (suc k) n tot off dst ip d mem h le fits file ok =
        elim (Bool-cases (ltb tot n)) [
          | inr e ↦
              let over = ltb-false_le tot n e in
              rw e (
                _,
                _,
                refl,
                nothing-Reads n tot off dst ip d mem ip d le (Keeps-refl sb ip d file ok)
                    (inl (omega (arith, over, le))),
              )
          | inl e ↦
              let more = ltb-true_lt tot n e in
              let mapped = bmap-Maps sb ip d file ok (off / bsize) (omega (arith, fits, more)) in
              let m = chunk (n - tot) off in
              rw (e, mapped.1)
                (step-Reads n tot off dst m ip d mem mapped.0
                  (λ r out.
                    readi_loop sb either_copyout k n (tot + m) (off + m) (dst + m) r.inode r.disk
                      out)
                  (omega arith) fits more (omega (arith, more)) mapped.2
                  (λ mem'.
                    readi_loop-Reads k n (tot + m) (off + m) (dst + m) mapped.0.inode mapped.0.disk
                      mem' (omega (arith, h, more)) (omega (arith, more))
                      (omega (arith, fits, more)) mapped.2.keeps.file mapped.2.keeps.reserved))
        ]
