-- ===== src/Fs/Truncating.antt =====
-- `itrunc` of kernel/fs.c on the bitmap.
use mathlib.Core.Path.{subst}
use csci5103_lab.Common.{
  ℕ, zero, suc, ◌+◌, ◌-◌, ◌*◌, ◌<◌, ◌≡◌, ◌≢◌, inl, inr, refl, sym, ap, ◌∙◌, arith, Bool, true,
  false, not, ◌&&◌, ◌||◌, Option, none, some, List, length, get_or, set, length-set,
  get_or-set_self, get_or-set_ne, ltb, ltb-eq-false, ◌==◌, if◌then◌else◌, Bool-cases, ==_iff,
  ==_false, differ,
}
use csci5103_lab.Memory.{load32}
use csci5103_lab.Fs.Itable.{Inode}
use csci5103_lab.Fs.Blocks.{Superblock, Block, Disk, bblock, bfree}
use csci5103_lab.Fs.Bitmap.{used, IsReserved}
use csci5103_lab.Fs.Allocation.{Frees, bfree-Frees}
use csci5103_lab.Fs.Bmap.{addr_at}
use csci5103_lab.Fs.Slots.{nslots, slot, slot_low, slot_high, entry_of-nonzero, IsFile}
use csci5103_lab.Fs.Truncate.{free_block, free_direct, free_entries}

module _ (sb : Superblock) (ip : Inode) (d : Disk) (file : IsFile sb ip d)
    (ok : IsReserved sb d) where
  -- The blocks of the slots that are done are free, and nothing else has changed.
  pub record Cleared (done : ℕ → Bool) (d' : Disk) : Type 0 where
    pub freed :
        (s : ℕ) → s < nslots → done s ≡ true → slot ip d s ≢ 0 → used sb d' (slot ip d s) ≡ 0
    pub kept :
        (j : ℕ)
        → ((s : ℕ) → s < nslots → done s ≡ true → slot ip d s ≢ 0 → j ≢ slot ip d s)
        → used sb d' j ≡ used sb d j
    pub blocks : (x : ℕ) → ((j : ℕ) → j < sb.size → x ≢ bblock sb j) → d' x ≡ d x

  abbrev pub and_slot : (ℕ → Bool) → ℕ → (ℕ → Bool)
  and_slot done s t = done t || (t == s)

  -- A slot without a block
  skip-Cleared :
      (done : ℕ → Bool) (d' : Disk) (s : ℕ)
      → slot ip d s ≡ 0
      → Cleared done d'
      → Cleared (and_slot done s) d'
  skip-Cleared done d' s z c = record {
    freed = λ t h e n. elim (Bool-cases (t == s)) [
      | inl f ↦ absurd (n (ap (slot ip d) ((==_iff t s).0 f) ∙ z))
      | inr f ↦ c.freed t h (ground (arith, e, f)) n
    ];
    kept = λ j a. c.kept j (λ t h e n. a t h (ground (arith, e)) n);
    blocks = c.blocks;
  }

  -- A slot whose block is freed
  free-Cleared :
      (done : ℕ → Bool) (d1 d2 : Disk) (s : ℕ)
      → s < nslots
      → slot ip d s ≢ 0
      → ((j : ℕ) → used sb d2 j ≡ (if j == slot ip d s then 0 else used sb d1 j))
      → ((x : ℕ) → x ≢ bblock sb (slot ip d s) → d2 x ≡ d1 x)
      → Cleared done d1
      → Cleared (and_slot done s) d2
  free-Cleared done d1 d2 s h n bits others c = record {
    freed = λ t k e m. bits (slot ip d t) ∙ elim (Bool-cases (slot ip d t == slot ip d s)) [
      | inl f ↦ rw f refl
      | inr f ↦ rw f (
          c.freed t k
            (ground (arith, e, λ (z : t ≡ s). differ f ((==_iff _ _).1 (ap (slot ip d) z)))) m)
    ];
    kept = λ j a.
        bits j
        ∙ rw (==_false j (slot ip d s) (a s h (ground arith) n))
            (c.kept j (λ t k e m. a t k (ground (arith, e)) m));
    blocks = λ x a. others x (a (slot ip d s) (file.inside s h n)) ∙ c.blocks x a;
  }

  freed_in_use :
      (d1 : Disk) (b : ℕ)
      → used sb d1 b ≡ 1
      → (d2 : Disk) × (bfree sb b d1 ≡ some d2)
        × ((j : ℕ) → used sb d2 j ≡ (if j == b then 0 else used sb d1 j))
        × ((x : ℕ) → x ≢ bblock sb b → d2 x ≡ d1 x)
  freed_in_use d1 b u = result_used (bfree sb b d1) refl (bfree-Frees sb d1 b)
    where
      result_used :
          (o : Option Disk)
          → bfree sb b d1 ≡ o
          → Frees sb d1 b o
          → (d2 : Disk) × (bfree sb b d1 ≡ some d2)
            × ((j : ℕ) → used sb d2 j ≡ (if j == b then 0 else used sb d1 j))
            × ((x : ℕ) → x ≢ bblock sb b → d2 x ≡ d1 x)
      result_used none e f = absurd (omega (arith, u, f))
      result_used (some d2) e f = (d2, e, f.1, f.2)

  -- `free_block` of a slot that is not done
  pub free_block-Cleared :
      (done : ℕ → Bool) (d1 : Disk) (s : ℕ)
      → s < nslots
      → done s ≡ false
      → Cleared done d1
      → (d2 : Disk) × (free_block sb (slot ip d s) d1 ≡ some d2) × Cleared (and_slot done s) d2
  free_block-Cleared done d1 s h fresh c = elim (Bool-cases (slot ip d s == 0)) [
    | inl e ↦ (d1, rw e refl, skip-Cleared done d1 s ((==_iff _ 0).0 e) c)
    | inr e ↦
        let n : slot ip d s ≢ 0 = λ z. differ e ((==_iff _ 0).1 z) in
        let before : used sb d1 (slot ip d s) ≡ 1 =
          c.kept (slot ip d s)
            (λ t k f m z. differ (subst (λ u. done u ≡ false) (file.distinct s t h k n z) fresh) f)
          ∙ file.in_use s h n in
        let freed = freed_in_use d1 (slot ip d s) before in
        (freed.0, rw e freed.1, free-Cleared done d1 freed.0 s h n freed.2 freed.3 c)
  ]

  pub same-Cleared :
      (done done' : ℕ → Bool) (d' : Disk)
      → ((t : ℕ) → done' t ≡ done t)
      → Cleared done d'
      → Cleared done' d'
  same-Cleared done done' d' e c = record {
    freed = λ t h f n. c.freed t h (sym (e t) ∙ f) n;
    kept = λ j a. c.kept j (λ t h f n. a t h (e t ∙ f) n);
    blocks = c.blocks;
  }

  -- The entries of the indirect block are done, up to one of them.
  abbrev pub below : ℕ → ℕ → Bool
  below k t = ltb t k && not (t == 12)

  pub nothing-Cleared : Cleared (below 0) d
  nothing-Cleared = record {
    freed = λ s h e n. absurd (ground (arith, e));
    kept = λ j a. refl;
    blocks = λ x a. refl;
  }

  next-Cleared :
      (k : ℕ) (d1 : Disk)
      → k < nslots
      → k ≢ 12
      → Cleared (below k) d1
      → (d2 : Disk) × (free_block sb (slot ip d k) d1 ≡ some d2) × Cleared (below (k + 1)) d2
  next-Cleared k d1 h n c =
      let (d2, e, c') = free_block-Cleared (below k) d1 k h (ground arith) c in
      (d2, e, same-Cleared (and_slot (below k) k) (below (k + 1)) d2 (λ t. ground (arith, n)) c')

  -- `ip->addrs` with the first entries 0
  pub record Partly (k : ℕ) (addrs : List ℕ) : Type 0 where
    pub entries : length addrs ≡ 13
    pub rest : (t : ℕ) → get_or addrs t 0 ≡ (if ltb t k then 0 else addr_at ip t)

  pub next-Partly :
      (k : ℕ) (addrs : List ℕ) → k < 13 → Partly k addrs → Partly (k + 1) (set addrs k 0)
  next-Partly k addrs h p = record {
    entries = length-set addrs k 0 ∙ p.entries;
    rest = λ t. elim (Bool-cases (t == k)) [
      | inl e ↦
          let same : k ≡ t = sym ((==_iff t k).0 e) in
          let past : ltb t (k + 1) ≡ true = ground (arith, e) in
          rw past (
            ap (λ u. get_or (set addrs k 0) u 0) (sym same)
            ∙ get_or-set_self addrs k 0 0 (omega (arith, h, p.entries)))
      | inr e ↦
          let other : ltb t (k + 1) ≡ ltb t k = ground (arith, e) in
          rw other (get_or-set_ne addrs 0 0 (λ z. differ e ((==_iff t k).1 (sym z))) ∙ p.rest t)
    ];
  }

  pub free_direct-Cleared :
      (n k : ℕ) (addrs : List ℕ) (d1 : Disk)
      → k + n ≡ 12
      → Partly k addrs
      → Cleared (below k) d1
      → (addrs' : List ℕ) × (d2 : Disk) × (free_direct sb n k addrs d1 ≡ some (addrs', d2))
        × Partly 12 addrs'
        × Cleared (below 12) d2
  unfolding free_direct
  free_direct-Cleared zero k addrs d1 e p c =
      let full : k ≡ 12 = omega (arith, e) in
      (
        addrs,
        d1,
        refl,
        subst (λ i. Partly i addrs) full p,
        subst (λ i. Cleared (below i) d1) full c,
      )
  free_direct-Cleared (suc n) k addrs d1 e p c =
      let here : get_or addrs k 0 ≡ slot ip d k =
        p.rest k
        ∙ ap (λ b. if b then 0 else addr_at ip k) (ltb-eq-false k k (omega arith))
        ∙ sym (slot_low ip d k (omega (arith, e))) in
      let (d2, f, c') = next-Cleared k d1 (omega (arith, e)) (omega (arith, e)) c in
      let (addrs', d3, g, p', rest) =
        free_direct-Cleared n (k + 1) (set addrs k 0) d2 (omega (arith, e))
          (next-Partly k addrs (omega (arith, e)) p) c' in
      (addrs', d3, rw (here, f) g, p', rest)

  pub free_entries-Cleared :
      (n j : ℕ) (d1 : Disk)
      → addr_at ip 12 ≢ 0
      → j + n ≡ 256
      → Cleared (below (13 + j)) d1
      → (d2 : Disk) × (free_entries sb (addr_at ip 12) n j d1 ≡ some d2) × Cleared (below 269) d2
  unfolding free_entries
  free_entries-Cleared zero j d1 m e c =
      let full : 13 + j ≡ 269 = omega (arith, e) in
      (d1, refl, subst (λ i. Cleared (below i) d1) full c)
  free_entries-Cleared (suc n) j d1 m e c =
      let at : slot ip d 12 ≡ addr_at ip 12 = slot_low ip d 12 (omega arith) in
      let block : d1 (addr_at ip 12) ≡ d (addr_at ip 12) =
        c.blocks (addr_at ip 12)
          (λ i l z. file.no_bitmap 12 i (omega arith) (λ w. m (sym at ∙ w)) l (at ∙ z)) in
      let index : 13 + j - 13 ≡ j = omega arith in
      let here : load32 (d1 (addr_at ip 12)) (4 * j) ≡ slot ip d (13 + j) =
        ap (λ (b : Block). load32 b (4 * j)) block
        ∙ sym (
            slot_high ip d (13 + j) (omega arith)
            ∙ entry_of-nonzero d (13 + j - 13) m
            ∙ ap (λ i. load32 (d (addr_at ip 12)) (4 * i)) index) in
      let (d2, f, c') = next-Cleared (13 + j) d1 (omega (arith, e)) (omega arith) c in
      let step : 13 + j + 1 ≡ 13 + (j + 1) = omega arith in
      let (d3, g, rest) =
        free_entries-Cleared n (j + 1) d2 m (omega (arith, e))
          (subst (λ i. Cleared (below i) d2) step c') in
      (d3, rw (here, f) g, rest)
