-- ===== src/Fs/Mapping.antt =====
-- `bmap` of kernel/fs.c keeps the file, and gives the block that holds its content.
use mathlib.Core.Path.{subst}
use csci5103_lab.Common.{
  ℕ, ◌+◌, ◌-◌, ◌<◌, ◌≡◌, ◌≢◌, refl, sym, ◌∙◌, arith, true, false, some, inl, inr, lt→ltb, ltb, ◌==◌,
  Bool-cases, ==_iff, differ,
}
use csci5103_lab.Fs.Itable.{Inode}
use csci5103_lab.Fs.Blocks.{Superblock, Disk}
use csci5103_lab.Fs.Bmap.{Mapped, addr_at, bmap_addr, bmap_entry, bmap_indirect, bmap}
use csci5103_lab.Fs.Bitmap.{IsReserved}
use csci5103_lab.Fs.Slots.{slot_high, entry_of-zero, block_slot, IsFile, Keeps, Keeps-trans}
use csci5103_lab.Fs.Placement.{Maps, bmap_addr-Maps, indirect_addr}
use csci5103_lab.Fs.IndirectPlacement.{bmap_entry-Maps}

small_low : (bn : ℕ) → ltb bn 12 ≡ true → bn < 13
small_low bn e = ground (arith, e)

big_slot : (bn : ℕ) → ltb bn 12 ≡ false → 13 + (bn - 12) ≡ block_slot bn
big_slot bn e = ground (arith, e)

big_index : (bn : ℕ) → ltb bn 12 ≡ false → bn < 268 → bn - 12 < 256
big_index bn e h = ground (arith, e, h)

module _ (sb : Superblock) (ip : Inode) (d : Disk) (file : IsFile sb ip d)
    (ok : IsReserved sb d) where
  after-Maps :
      (s : ℕ) (r q : Mapped)
      → Keeps sb ip d r.inode r.disk
      → Maps sb r.inode r.disk s q
      → Maps sb ip d s q
  after-Maps s r q k m = record {
    keeps = Keeps-trans sb ip d r.inode r.disk q.inode q.disk k m.keeps;
    at_slot = m.at_slot;
    full = m.full;
  }

  bmap_indirect-Maps :
      (m : ℕ) (r : Mapped)
      → m < 256
      → Maps sb ip d 12 r
      → Maps sb ip d (13 + m) (bmap_indirect sb m r)
  bmap_indirect-Maps m r h is =
      let at : r.addr ≡ addr_at r.inode 12 =
        is.at_slot ∙ indirect_addr sb r.inode r.disk is.keeps.file is.keeps.reserved in
      elim (Bool-cases (r.addr == 0)) [
        | inl e ↦
            let zero_addr : r.addr ≡ 0 = (==_iff r.addr 0).0 e in
            rw e (record {
              keeps = is.keeps;
              at_slot =
                  zero_addr
                  ∙ sym (
                      slot_high r.inode r.disk (13 + m) (omega arith)
                      ∙ entry_of-zero r.disk (13 + m - 13) (sym at ∙ zero_addr));
              full = is.full;
            })
        | inr e ↦
            let n : addr_at r.inode 12 ≢ 0 = λ z. differ e ((==_iff r.addr 0).1 (at ∙ z)) in
            rw e (
              after-Maps (13 + m) r (bmap_entry sb r.inode r.addr m r.disk) is.keeps (
                subst (λ a. Maps sb r.inode r.disk (13 + m) (bmap_entry sb r.inode a m r.disk))
                  (sym at)
                  (bmap_entry-Maps sb r.inode r.disk is.keeps.file is.keeps.reserved m h n)))
      ]

  -- Where the blocks of the inode are in use, different, and no bitmap: `bmap` of a block number below 268
  -- gives the block that is then the file's, and 0 only if the disk is full; the content of this
  -- file and the blocks in use of others stay.
  pub bmap-Maps :
      (bn : ℕ)
      → bn < 268
      → (r : Mapped) × (bmap sb ip bn d ≡ some r) × Maps sb ip d (block_slot bn) r
  unfolding bmap
  bmap-Maps bn h = elim (Bool-cases (ltb bn 12)) [
    | inl e ↦
        (bmap_addr sb ip bn d, rw e refl, rw e (bmap_addr-Maps sb ip d file ok bn (small_low bn e)))
    | inr e ↦
        let m : 13 + (bn - 12) ≡ block_slot bn = big_slot bn e in
        let small : ltb (bn - 12) 256 ≡ true = lt→ltb (bn - 12) 256 (big_index bn e h) in
        (
          bmap_indirect sb (bn - 12) (bmap_addr sb ip 12 d),
          rw (e, small) refl,
          subst (λ s. Maps sb ip d s (bmap_indirect sb (bn - 12) (bmap_addr sb ip 12 d))) m
              (bmap_indirect-Maps (bn - 12) (bmap_addr sb ip 12 d) (big_index bn e h)
                (bmap_addr-Maps sb ip d file ok 12 (omega arith))),
        )
  ]
