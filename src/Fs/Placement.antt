-- ===== src/Fs/Placement.antt =====
-- Where `bmap` of kernel/fs.c puts a block in `ip->addrs`.
use mathlib.Core.Path.{subst}
use csci5103_lab.Common.{
  ℕ, ◌-◌, ◌*◌, ◌≤◌, ◌<◌, ◌≡◌, ◌≢◌, inl, inr, refl, sym, ap, ◌∙◌, arith, length-set, get_or, set,
  get_or-set_self, get_or-set_ne, ltb, ltb-true_lt, ltb-false_le, ◌==◌, if◌then◌else◌, Bool-cases,
  ==_iff, ==_refl, ==_false, differ,
}
use csci5103_lab.Memory.{load32}
use csci5103_lab.Memory.Entry.{load32-zero}
use csci5103_lab.Fs.Itable.{Inode}
use csci5103_lab.Fs.Blocks.{Superblock, Block, Disk, bblock, balloc}
use csci5103_lab.Fs.Bmap.{Mapped, addr_at, bmap_addr}
use csci5103_lab.Fs.Bitmap.{used, IsReserved, Allocates, fresh, exhausted}
use csci5103_lab.Fs.Allocation.{used_apart, balloc-Allocates}
use csci5103_lab.Fs.Slots.{
  nslots, entry_of, slot, slot_low, slot_high, entry_of-zero, entry_of-nonzero, IsFile, Keeps,
  Keeps-refl,
}
use csci5103_lab.Fs.Growth.{Grows, Grows-Keeps}

-- The block is the one of the slot after a call that keeps the file; it is 0 only if the disk is full.
pub record Maps (sb : Superblock) (ip : Inode) (d : Disk) (s : ℕ) (r : Mapped) : Type 0 where
  pub keeps : Keeps sb ip d r.inode r.disk
  pub at_slot : r.addr ≡ slot r.inode r.disk s
  pub full : r.addr ≡ 0 → (j : ℕ) → j < sb.size → used sb r.disk j ≡ 1

module _ (sb : Superblock) (ip : Inode) (d : Disk) (file : IsFile sb ip d)
    (ok : IsReserved sb d) where
  -- A slot that has a block, and one that gets none
  pub there-Maps :
      (s b : ℕ)
      → s < nslots
      → b ≢ 0
      → b ≡ slot ip d s
      → Maps sb ip d s (record { addr = b; inode = ip; disk = d })
  there-Maps s b h n e = record {
    keeps = Keeps-refl sb ip d file ok;
    at_slot = e;
    full = λ z. absurd (n z);
  }

  pub full-Maps :
      (s : ℕ)
      → slot ip d s ≡ 0
      → ((j : ℕ) → j < sb.size → used sb d j ≡ 1)
      → Maps sb ip d s (record { addr = 0; inode = ip; disk = d })
  full-Maps s e all = record {
    keeps = Keeps-refl sb ip d file ok;
    at_slot = sym e;
    full = λ _. all;
  }

  pub grown-Maps :
      (s b : ℕ) (ip' : Inode) (d' : Disk)
      → Grows sb ip d ip' d' s b
      → Maps sb ip d s (record { addr = b; inode = ip'; disk = d' })
  grown-Maps s b ip' d' g = record {
    keeps = Grows-Keeps sb ip d ip' d' s b file ok g;
    at_slot = sym (g.slots s g.in_range ∙ ap (λ u. if u then b else slot ip d s) (==_refl s));
    full = λ z. absurd (g.nonzero z);
  }

  -- A block in `ip->addrs[i]`
  addr_at-set :
      (i b t : ℕ)
      → i < 13
      → addr_at (record ip { addrs = set ip.addrs i b }) t ≡ (if t == i then b else addr_at ip t)
  addr_at-set i b t h = elim (Bool-cases (t == i)) [
    | inl e ↦ rw e (
        subst (λ x. get_or (set ip.addrs i b) x 0 ≡ b) (sym ((==_iff t i).0 e))
          (get_or-set_self ip.addrs i b 0 (omega (arith, h, file.entries))))
    | inr e ↦ rw e (get_or-set_ne ip.addrs b 0 (λ z. differ e ((==_iff t i).1 (sym z))))
  ]

  pub indirect_addr : slot ip d 12 ≡ addr_at ip 12
  indirect_addr = slot_low ip d 12 (omega arith)

  -- The entries of an indirect block that has not changed
  same_entry :
      (d' : Disk) (m : ℕ)
      → (slot ip d 12 ≢ 0 → d' (slot ip d 12) ≡ d (slot ip d 12))
      → entry_of d' (addr_at ip 12) m ≡ entry_of d (addr_at ip 12) m
  same_entry d' m same = elim (Bool-cases (addr_at ip 12 == 0)) [
    | inl e ↦
        let z = (==_iff (addr_at ip 12) 0).0 e in entry_of-zero d' m z ∙ sym (entry_of-zero d m z)
    | inr e ↦
        let n : addr_at ip 12 ≢ 0 = λ z. differ e ((==_iff (addr_at ip 12) 0).1 z) in
        entry_of-nonzero d' m n
        ∙ ap (λ (x : Block). load32 x (4 * m))
            (subst (λ a. d' a ≡ d a) indirect_addr (same (λ z. n (sym indirect_addr ∙ z))))
        ∙ sym (entry_of-nonzero d m n)
  ]

  high_slots :
      (i b : ℕ) (d' : Disk) (t : ℕ)
      → i < 13
      → slot ip d i ≡ 0
      → ((x : ℕ) → d' b x ≡ 0)
      → b ≢ 0
      → (slot ip d 12 ≢ 0 → d' (slot ip d 12) ≡ d (slot ip d 12))
      → 13 ≤ t
      → entry_of d' (addr_at (record ip { addrs = set ip.addrs i b }) 12) (t - 13) ≡ slot ip d t
  high_slots i b d' t h empty zeros n same large =
      let ip' : Inode = record ip { addrs = set ip.addrs i b } in
      elim (Bool-cases (12 == i)) [
        | inl twelve ↦
            let e : 12 ≡ i = (==_iff 12 i).0 twelve in
            let new : addr_at ip' 12 ≡ b =
              addr_at-set i b 12 h ∙ ap (λ c. if c then b else addr_at ip 12) ((==_iff 12 i).1 e) in
            let old : addr_at ip 12 ≡ 0 = sym indirect_addr ∙ ap (slot ip d) e ∙ empty in
            ap (λ a. entry_of d' a (t - 13)) new
            ∙ entry_of-nonzero d' (t - 13) n
            ∙ load32-zero (d' b) (4 * (t - 13)) zeros
            ∙ sym (slot_high ip d t large ∙ entry_of-zero d (t - 13) old)
        | inr other ↦
            let e : 12 ≢ i = λ z. differ other ((==_iff 12 i).1 z) in
            let kept : addr_at ip' 12 ≡ addr_at ip 12 =
              addr_at-set i b 12 h ∙ ap (λ c. if c then b else addr_at ip 12) (==_false 12 i e) in
            ap (λ a. entry_of d' a (t - 13)) kept
            ∙ same_entry d' (t - 13) same
            ∙ sym (slot_high ip d t large)
      ]

  slots-set :
      (i b : ℕ) (d' : Disk)
      → i < 13
      → slot ip d i ≡ 0
      → ((x : ℕ) → d' b x ≡ 0)
      → b ≢ 0
      → (slot ip d 12 ≢ 0 → d' (slot ip d 12) ≡ d (slot ip d 12))
      → (t : ℕ) → t < nslots
      → slot (record ip { addrs = set ip.addrs i b }) d' t ≡ (if t == i then b else slot ip d t)
  slots-set i b d' h empty zeros n same t k =
      let ip' : Inode = record ip { addrs = set ip.addrs i b } in
      elim (Bool-cases (ltb t 13)) [
        | inl low ↦
            let small = ltb-true_lt t 13 low in
            slot_low ip' d' t small
            ∙ addr_at-set i b t h
            ∙ ap (λ x. if t == i then b else x) (sym (slot_low ip d t small))
        | inr high ↦
            let large = ltb-false_le t 13 high in
            slot_high ip' d' t large
            ∙ high_slots i b d' t h empty zeros n same large
            ∙ sym (
                ap (λ c. if c then b else slot ip d t)
                  (==_false t i (λ z. absurd (omega (arith, z, large, h)))))
      ]

  -- Blocks that an allocation leaves
  pub not_fresh : (x b : ℕ) → used sb d x ≡ 1 → used sb d b ≡ 0 → x ≢ b
  not_fresh x b u f = used_apart sb d x b u f

  pub indirect_same :
      (b : ℕ) (d' : Disk)
      → used sb d b ≡ 0
      → b < sb.size
      → ((x : ℕ) → x ≢ b → x ≢ bblock sb b → d' x ≡ d x)
      → slot ip d 12 ≢ 0
      → d' (slot ip d 12) ≡ d (slot ip d 12)
  indirect_same b d' f h same n =
      same (slot ip d 12) (not_fresh _ b (file.in_use 12 (omega arith) n) f)
        (file.no_bitmap 12 b (omega arith) n h)

  abbrev with_addr : ℕ → ℕ × Disk → Mapped
  with_addr i r =
      if r.0 == 0
      then record { addr = 0; inode = ip; disk = r.1 }
      else record { addr = r.0; inode = record ip { addrs = set ip.addrs i r.0 }; disk = r.1 }

  with_addr-Maps :
      (i : ℕ) (r : ℕ × Disk)
      → i < 13
      → slot ip d i ≡ 0
      → Allocates sb d r
      → Maps sb ip d i (with_addr i r)
  with_addr-Maps i _ h empty (fresh {b} {d'} n k f uses zeros same) = rw (==_false b 0 n) (
      grown-Maps i b _ d' (record {
        in_range = omega (arith, h);
        empty = empty;
        nonzero = n;
        inside = k;
        free = f;
        uses = uses;
        slots = slots-set i b d' h empty zeros n (indirect_same b d' f k same);
        entries = length-set ip.addrs i b ∙ file.entries;
        zeros = λ _. zeros;
        others = λ x _ u bitmap _. same x (not_fresh x b u f) (bitmap b k);
        same_size = refl;
        same_inum = refl;
      }))
  with_addr-Maps i _ h empty (exhausted all) = full-Maps i empty all

  pub bmap_addr-Maps : (i : ℕ) → i < 13 → Maps sb ip d i (bmap_addr sb ip i d)
  unfolding bmap_addr
  bmap_addr-Maps i h = elim (Bool-cases (addr_at ip i == 0)) [
    | inl e ↦
        let empty : slot ip d i ≡ 0 = slot_low ip d i h ∙ (==_iff (addr_at ip i) 0).0 e in
        rw e (with_addr-Maps i (balloc sb d) h empty (balloc-Allocates sb d ok))
    | inr e ↦ rw e (
        there-Maps i (addr_at ip i) (omega (arith, h))
          (λ z. differ e ((==_iff (addr_at ip i) 0).1 z)) (sym (slot_low ip d i h)))
  ]
