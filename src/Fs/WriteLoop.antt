-- ===== src/Fs/WriteLoop.antt =====
-- The loop of `writei` of kernel/fs.c, and what `writei` leaves in a file.
use mathlib.Core.Path.{subst}
use csci5103_lab.Common.{
  ℕ, zero, suc, ◌+◌, ◌-◌, ◌*◌, ◌/◌, ◌%◌, ◌≤◌, ◌<◌, ◌≡◌, ◌≢◌, ◌⊎◌, inl, inr, refl, arith, Bool,
  Option, some, ltb, ltb-true_lt, ltb-false_le, ◌==◌, Bool-cases, ==_iff, differ,
}
use csci5103_lab.Fs.Itable.{Inode}
use csci5103_lab.Fs.Blocks.{Superblock, Block, Disk, bsize}
use csci5103_lab.Fs.Bitmap.{used, IsReserved}
use csci5103_lab.Fs.Bmap.{Mapped}
use csci5103_lab.Fs.Slots.{block_slot, IsFile, Keeps, Keeps-refl}
use csci5103_lab.Fs.Placement.{Maps}
use csci5103_lab.Fs.Mapping.{bmap-Maps}
use csci5103_lab.Fs.Content.{maxfile, chunk, Progress, writei_step, writei_loop}
use csci5103_lab.Fs.Storing.{CopiesIn, Stored, step-Stored, Stored-trans, nothing-Stored}

module _ (sb : Superblock) (source : ℕ → ℕ) where
  -- Where the loop ends: all is written, or the disk is full.
  pub record Stores (n tot off src : ℕ) (ip : Inode) (d : Disk) (q : Progress) : Type 0 where
    pub least : tot ≤ q.tot
    pub most : q.tot ≤ n
    pub at_end : q.off ≡ off + (q.tot - tot)
    pub stored : Stored sb source ip d off src (q.tot - tot) q.inode q.disk
    pub ends : (q.tot ≡ n) ⊎ ((j : ℕ) → j < sb.size → used sb q.disk j ≡ 1)

  next-Stores :
      (n tot off src m : ℕ) (ip : Inode) (d : Disk) (ip' : Inode) (d' : Disk) (q : Progress)
      → Stored sb source ip d off src m ip' d'
      → Stores n (tot + m) (off + m) (src + m) ip' d' q
      → Stores n tot off src ip d q
  next-Stores n tot off src m ip d ip' d' q k l = record {
    least = omega (arith, l.least);
    most = l.most;
    at_end = omega (arith, l.at_end, l.least);
    stored =
        subst (λ j. Stored sb source ip d off src j q.inode q.disk) (omega (arith, l.least))
          (Stored-trans sb source ip d off src m (q.tot - (tot + m)) ip' d' q.inode q.disk k
            l.stored);
    ends = l.ends;
  }

  module _ (either_copyin : Block → ℕ → ℕ → ℕ → Bool × Block)
      (copies : CopiesIn either_copyin source) where
    abbrev Ends : ℕ → ℕ → ℕ → ℕ → Inode → Disk → Option Progress → Type 0
    Ends n tot off src ip d result =
        (q : Progress) × (result ≡ some q) × Stores n tot off src ip d q

    nothing-Stores :
        (n tot off src : ℕ) (ip : Inode) (d : Disk) (ip' : Inode) (d' : Disk)
        → tot ≤ n
        → Keeps sb ip d ip' d'
        → (tot ≡ n) ⊎ ((j : ℕ) → j < sb.size → used sb d' j ≡ 1)
        → Stores n tot off src ip d (record { tot = tot; off = off; inode = ip'; disk = d' })
    nothing-Stores n tot off src ip d ip' d' le k ends = record {
      least = omega arith;
      most = le;
      at_end = omega arith;
      stored =
          subst (λ j. Stored sb source ip d off src j ip' d') (omega arith)
            (nothing-Stored sb source ip d off src ip' d' k);
      ends = ends;
    }

    step-Ends :
        (n tot off src m : ℕ) (ip : Inode) (d : Disk) (r : Mapped)
        (later : Mapped → Option Progress)
        → 0 < m
        → m ≤ bsize - off % bsize
        → off < maxfile * bsize
        → tot ≤ n
        → Maps sb ip d (block_slot (off / bsize)) r
        → ((r' : Mapped)
            → Stored sb source ip d off src m r'.inode r'.disk
            → Ends n (tot + m) (off + m) (src + m) r'.inode r'.disk (later r'))
        → Ends n tot off src ip d (writei_step sb either_copyin tot m off src r later)
    step-Ends n tot off src m ip d r later some_bytes h k le maps goes_on =
        let out = copies (r.disk r.addr) (off % bsize) src m in
        elim (Bool-cases (r.addr == 0)) [
          | inl e ↦ rw e (
            _,
            refl,
            nothing-Stores n tot off src ip d r.inode r.disk le maps.keeps
                (inr (maps.full ((==_iff r.addr 0).0 e))),
          )
          | inr e ↦
              let nz : r.addr ≢ 0 = λ z. differ e ((==_iff r.addr 0).1 z) in
              let stored = step-Stored sb source ip d off src m r _ some_bytes h k maps nz out.1 in
              let rest = goes_on _ stored in
              rw (e, out.0)
                (rest.0, rest.1, next-Stores n tot off src m ip d _ _ rest.0 stored rest.2)
        ]

    pub writei_loop-Ends :
        (k n tot off src : ℕ) (ip : Inode) (d : Disk)
        → n - tot < k
        → tot ≤ n
        → off + (n - tot) ≤ maxfile * bsize
        → IsFile sb ip d
        → IsReserved sb d
        → Ends n tot off src ip d (writei_loop sb either_copyin k n tot off src ip d)
    unfolding writei_loop
    writei_loop-Ends zero n tot off src ip d h le fits file ok = absurd (omega (arith, h))
    writei_loop-Ends (suc k) n tot off src ip d h le fits file ok = elim (Bool-cases (ltb tot n)) [
      | inr e ↦
          let over = ltb-false_le tot n e in
          rw e (
            _,
            refl,
            nothing-Stores n tot off src ip d ip d le (Keeps-refl sb ip d file ok)
                (inl (omega (arith, over, le))),
          )
      | inl e ↦
          let more = ltb-true_lt tot n e in
          let mapped = bmap-Maps sb ip d file ok (off / bsize) (omega (arith, fits, more)) in
          let m = chunk (n - tot) off in
          rw (e, mapped.1)
            (step-Ends n tot off src m ip d mapped.0 _ (omega (arith, more)) (omega arith)
              (omega (arith, fits, more)) le mapped.2
              (λ r' stored.
                writei_loop-Ends k n (tot + m) (off + m) (src + m) r'.inode r'.disk
                  (omega (arith, h, more)) (omega (arith, more)) (omega (arith, fits, more))
                  stored.file stored.reserved))
    ]
