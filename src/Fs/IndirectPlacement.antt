-- ===== src/Fs/IndirectPlacement.antt =====
-- Where `bmap` of kernel/fs.c puts a block in the indirect block.
use mathlib.Core.Path.{subst}
use csci5103_lab.Common.Bit.{bit}
use csci5103_lab.Common.{
  ℕ, ◌+◌, ◌-◌, ◌*◌, ◌/◌, ◌%◌, ◌^◌, ◌≤◌, ◌<◌, ◌≡◌, ◌≢◌, inl, inr, refl, sym, ap, ◌∙◌, arith, put,
  put_self, put_ne, ltb, ltb-true_lt, ltb-false_le, ◌==◌, if◌then◌else◌, Bool-cases, ==_iff,
  ==_false, differ,
}
use csci5103_lab.Memory.{load32, store32}
use csci5103_lab.Memory.Entry.{load32-store32_at}
use csci5103_lab.Fs.Itable.{Inode}
use csci5103_lab.Fs.Blocks.{Superblock, Block, Disk, bpb, bblock, balloc}
use csci5103_lab.Fs.Bmap.{Mapped, addr_at, bmap_entry}
use csci5103_lab.Fs.Bitmap.{used, IsReserved, Allocates, fresh, exhausted}
use csci5103_lab.Fs.Allocation.{balloc-Allocates}
use csci5103_lab.Fs.Slots.{slot, slot_low, slot_high, entry_of-nonzero, IsFile}
use csci5103_lab.Fs.Placement.{
  Maps, there-Maps, full-Maps, grown-Maps, indirect_addr, not_fresh, indirect_same,
}

entry_test : (t m : ℕ) → 13 ≤ t → (t - 13 == m) ≡ (t == 13 + m)
entry_test t m h = ground (arith, h)

module _ (sb : Superblock) (ip : Inode) (d : Disk) (file : IsFile sb ip d)
    (ok : IsReserved sb d) where
  -- A block in the entry `m` of the indirect block
  abbrev with_entry : ℕ → ℕ × Disk → Mapped
  with_entry m r = if r.0 == 0 then record { addr = 0; inode = ip; disk = r.1 } else record {
    addr = r.0;
    inode = ip;
    disk = put r.1 (addr_at ip 12) (store32 (r.1 (addr_at ip 12)) (4 * m) r.0);
  }

  slots-entry :
      (m b : ℕ) (d' : Disk)
      → b < 2 ^ 32
      → addr_at ip 12 ≢ 0
      → d' (addr_at ip 12) ≡ d (addr_at ip 12)
      → (t : ℕ)
      → slot ip (put d' (addr_at ip 12) (store32 (d' (addr_at ip 12)) (4 * m) b)) t
        ≡ (if t == 13 + m then b else slot ip d t)
  slots-entry m b d' small n same t =
      let a = addr_at ip 12 in
      let block = store32 (d' a) (4 * m) b in
      elim (Bool-cases (ltb t 13)) [
        | inl low ↦
            let h = ltb-true_lt t 13 low in
            slot_low ip (put d' a block) t h
            ∙ sym (slot_low ip d t h)
            ∙ sym (
                ap (λ c. if c then b else slot ip d t)
                  (==_false t (13 + m) (λ z. absurd (omega (arith, z, h)))))
        | inr high ↦
            let h = ltb-false_le t 13 high in
            slot_high ip (put d' a block) t h
            ∙ entry_of-nonzero (put d' a block) (t - 13) n
            ∙ ap (λ (x : Block). load32 x (4 * (t - 13))) (put_self d' a block)
            ∙ load32-store32_at (d' a) m (t - 13) b small
            ∙ ap (λ (x : Block). if t - 13 == m then b else load32 x (4 * (t - 13))) same
            ∙ ap (λ x. if t - 13 == m then b else x)
                (sym (slot_high ip d t h ∙ entry_of-nonzero d (t - 13) n))
            ∙ ap (λ c. if c then b else slot ip d t) (entry_test t m h)
      ]

  with_entry-Maps :
      (m : ℕ) (r : ℕ × Disk)
      → m < 256
      → addr_at ip 12 ≢ 0
      → slot ip d (13 + m) ≡ 0
      → Allocates sb d r
      → Maps sb ip d (13 + m) (with_entry m r)
  with_entry-Maps m _ h n empty (fresh {b} {d'} nz k f uses zeros same) =
      let a = addr_at ip 12 in
      let a_slot : slot ip d 12 ≢ 0 = λ z. n (sym (indirect_addr sb ip d file ok) ∙ z) in
      let a_used : used sb d a ≡ 1 =
        subst (λ x. used sb d x ≡ 1) (indirect_addr sb ip d file ok)
          (file.in_use 12 (omega arith) a_slot) in
      let a_same : d' a ≡ d a =
        subst (λ x. d' x ≡ d x) (indirect_addr sb ip d file ok)
          (indirect_same sb ip d file ok b d' f k same a_slot) in
      rw (==_false b 0 nz) (
        grown-Maps sb ip d file ok (13 + m) b ip _ (record {
          in_range = omega (arith, h);
          empty = empty;
          nonzero = nz;
          inside = k;
          free = f;
          uses = λ j l.
              ap (λ (x : Block). bit (x (j % bpb / 8)) (j % 8))
                (put_ne d' a (bblock sb j) _ (λ z.
                  file.no_bitmap 12 j (omega arith) a_slot l
                    (indirect_addr sb ip d file ok ∙ sym z)))
              ∙ uses j l;
          slots = λ t _. slots-entry m b d' (omega (arith, k, ok.small)) n a_same t;
          entries = file.entries;
          zeros = λ _ i.
              ap (λ (x : Block). x i)
                (put_ne d' a b _ (λ z. not_fresh sb ip d file ok a b a_used f (sym z)))
              ∙ zeros i;
          others = λ x _ u bitmap o.
              put_ne d' a x _ (λ z. o (z ∙ sym (indirect_addr sb ip d file ok)))
              ∙ same x (not_fresh sb ip d file ok x b u f) (bitmap b k);
          same_size = refl;
          same_inum = refl;
        }))
  with_entry-Maps m _ h n empty (exhausted all) = full-Maps sb ip d file ok (13 + m) empty all

  pub bmap_entry-Maps :
      (m : ℕ)
      → m < 256
      → addr_at ip 12 ≢ 0
      → Maps sb ip d (13 + m) (bmap_entry sb ip (addr_at ip 12) m d)
  unfolding bmap_entry
  bmap_entry-Maps m h n =
      let index : 13 + m - 13 ≡ m = omega arith in
      let entry : slot ip d (13 + m) ≡ load32 (d (addr_at ip 12)) (4 * m) =
        slot_high ip d (13 + m) (omega arith)
        ∙ entry_of-nonzero d (13 + m - 13) n
        ∙ ap (λ k. load32 (d (addr_at ip 12)) (4 * k)) index in
      elim (Bool-cases (load32 (d (addr_at ip 12)) (4 * m) == 0)) [
        | inl e ↦ rw e (
            with_entry-Maps m (balloc sb d) h n (entry ∙ (==_iff _ 0).0 e)
              (balloc-Allocates sb d ok))
        | inr e ↦ rw e (
            there-Maps sb ip d file ok (13 + m) _ (omega (arith, h))
              (λ z. differ e ((==_iff _ 0).1 z)) (sym entry))
      ]
