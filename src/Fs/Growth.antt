-- ===== src/Fs/Growth.antt =====
-- A file of kernel/fs.c that gets one more block.
use mathlib.Core.Path.{subst}
use csci5103_lab.Common.{
  ℕ, ◌/◌, ◌%◌, ◌<◌, ◌≡◌, ◌≢◌, ◌⊎◌, inl, inr, sym, ap, ◌∙◌, arith, length, ◌==◌, if◌then◌else◌,
  Bool-cases, ==_iff, ==_refl, differ,
}
use csci5103_lab.Fs.Itable.{Inode}
use csci5103_lab.Fs.Blocks.{Superblock, Disk, bsize, bblock, iblock}
use csci5103_lab.Fs.Bitmap.{used, IsReserved}
use csci5103_lab.Fs.Allocation.{used_apart}
use csci5103_lab.Fs.Slots.{
  nslots, slot, block_slot, byte_of, byte_of-zero, byte_of-nonzero, block_slot_lt, block_slot_ne,
  IsFile, Keeps,
}

-- The slot `s` gets the block `b`, which was free.
pub record Grows (sb : Superblock) (ip : Inode) (d : Disk) (ip' : Inode) (d' : Disk) (s b : ℕ)
    : Type 0 where
  pub in_range : s < nslots
  pub empty : slot ip d s ≡ 0
  pub nonzero : b ≢ 0
  pub inside : b < sb.size
  pub free : used sb d b ≡ 0
  pub uses : (j : ℕ) → j < sb.size → used sb d' j ≡ (if j == b then 1 else used sb d j)
  pub slots : (t : ℕ) → t < nslots → slot ip' d' t ≡ (if t == s then b else slot ip d t)
  pub entries : length ip'.addrs ≡ 13
  pub zeros : s ≢ 12 → (i : ℕ) → d' b i ≡ 0
  pub others :
      (x : ℕ)
      → x < sb.size
      → used sb d x ≡ 1
      → ((j : ℕ) → j < sb.size → x ≢ bblock sb j)
      → x ≢ slot ip d 12
      → d' x ≡ d x
  pub same_size : ip'.size ≡ ip.size
  pub same_inum : ip'.inum ≡ ip.inum

module _ (sb : Superblock) (ip : Inode) (d : Disk) (ip' : Inode) (d' : Disk) (s b : ℕ)
    (file : IsFile sb ip d) (ok : IsReserved sb d) (g : Grows sb ip d ip' d' s b) where
  which_slot :
      (t : ℕ)
      → t < nslots
      → ((t ≡ s) × (slot ip' d' t ≡ b)) ⊎ ((t ≢ s) × (slot ip' d' t ≡ slot ip d t))
  which_slot t h = elim (Bool-cases (t == s)) [
    | inl e ↦ inl ((==_iff t s).0 e, g.slots t h ∙ ap (λ u. if u then b else slot ip d t) e)
    | inr e ↦
        inr (
          (λ z. differ e ((==_iff t s).1 z)),
          g.slots t h ∙ ap (λ u. if u then b else slot ip d t) e,
        )
  ]

  still_used : (x : ℕ) → x < sb.size → used sb d x ≡ 1 → used sb d' x ≡ 1
  still_used x h u = ground (arith, g.uses x h, u)

  b_used : used sb d' b ≡ 1
  b_used = g.uses b g.inside ∙ ap (λ u. if u then 1 else used sb d b) (==_refl b)

  fresh_apart : (t : ℕ) → t < nslots → slot ip d t ≢ b
  fresh_apart t h z =
      let n : slot ip d t ≢ 0 = λ w. g.nonzero (sym z ∙ w) in
      used_apart sb d (slot ip d t) b (file.in_use t h n) g.free z

  no_bitmap_new : (j : ℕ) → j < sb.size → b ≢ bblock sb j
  no_bitmap_new j h z = used_apart sb d (bblock sb j) b (ok.bitmap j h) g.free (sym z)

  no_inodes_new : (i : ℕ) → i < sb.ninodes → b ≢ iblock sb i
  no_inodes_new i h z = used_apart sb d (iblock sb i) b (ok.inodes i h) g.free (sym z)

  Grows-IsFile : IsFile sb ip' d'
  Grows-IsFile = record {
    entries = g.entries;
    inside = λ t h n. elim (which_slot t h) [
      | inl (_, e) ↦ subst (λ x. x < sb.size) (sym e) g.inside
      | inr (_, e) ↦ subst (λ x. x < sb.size) (sym e) (file.inside t h (λ z. n (e ∙ z)))
    ];
    in_use = λ t h n. elim (which_slot t h) [
      | inl (_, e) ↦ subst (λ x. used sb d' x ≡ 1) (sym e) b_used
      | inr (_, e) ↦
          let m : slot ip d t ≢ 0 = λ z. n (e ∙ z) in
          subst (λ x. used sb d' x ≡ 1) (sym e)
            (still_used (slot ip d t) (file.inside t h m) (file.in_use t h m))
    ];
    no_bitmap = λ t j h n k. elim (which_slot t h) [
      | inl (_, e) ↦ λ z. no_bitmap_new j k (sym e ∙ z)
      | inr (_, e) ↦ λ z. file.no_bitmap t j h (λ w. n (e ∙ w)) k (sym e ∙ z)
    ];
    no_inodes = λ t j h n k. elim (which_slot t h) [
      | inl (_, e) ↦ λ z. no_inodes_new j k (sym e ∙ z)
      | inr (_, e) ↦ λ z. file.no_inodes t j h (λ w. n (e ∙ w)) k (sym e ∙ z)
    ];
    distinct = λ t u h k n same. elim (which_slot t h) [
      | inl (et, e) ↦ elim (which_slot u k) [
        | inl (eu, f) ↦ et ∙ sym eu
        | inr (nu, f) ↦ absurd (fresh_apart u k (sym f ∙ sym same ∙ e))
      ]
      | inr (nt, e) ↦ elim (which_slot u k) [
        | inl (eu, f) ↦ absurd (fresh_apart t h (sym e ∙ same ∙ f))
        | inr (nu, f) ↦ file.distinct t u h k (λ z. n (e ∙ z)) (sym e ∙ same ∙ f)
      ]
    ];
  }

  same_byte :
      (t i : ℕ) → t < nslots → t ≢ 12 → byte_of d' (slot ip' d' t) i ≡ byte_of d (slot ip d t) i
  same_byte t i h n = elim (which_slot t h) [
    | inl (et, e) ↦
        let none_before : slot ip d t ≡ 0 = ap (slot ip d) et ∙ g.empty in
        let nz : slot ip' d' t ≢ 0 = λ z. g.nonzero (sym e ∙ z) in
        byte_of-nonzero d' i nz
        ∙ ap (λ x. d' x i) e
        ∙ g.zeros (λ z. n (et ∙ z)) i
        ∙ sym (byte_of-zero d i none_before)
    | inr (_, e) ↦ ap (λ x. byte_of d' x i) e ∙ elim (Bool-cases (slot ip d t == 0)) [
      | inl z ↦
          let zero_slot = (==_iff (slot ip d t) 0).0 z in
          byte_of-zero d' i zero_slot ∙ sym (byte_of-zero d i zero_slot)
      | inr z ↦
          let nz : slot ip d t ≢ 0 = λ w. differ z ((==_iff (slot ip d t) 0).1 w) in
          byte_of-nonzero d' i nz
          ∙ ap (λ (block : ℕ → ℕ). block i)
              (g.others (slot ip d t) (file.inside t h nz) (file.in_use t h nz)
                (λ j k. file.no_bitmap t j h nz k)
                (λ w. n (file.distinct t 12 h (omega arith) nz w)))
          ∙ sym (byte_of-nonzero d i nz)
    ]
  ]

  pub Grows-Keeps : Keeps sb ip d ip' d'
  Grows-Keeps = record {
    file = Grows-IsFile;
    reserved = record {
      first = still_used 0 (omega (arith, g.inside)) ok.first;
      bitmap = λ j h. still_used (bblock sb j) (ok.bitmap_inside j h) (ok.bitmap j h);
      bitmap_inside = ok.bitmap_inside;
      inodes = λ i h. still_used (iblock sb i) (ok.inodes_inside i h) (ok.inodes i h);
      inodes_inside = ok.inodes_inside;
      apart = ok.apart;
      inodes_after_boot = ok.inodes_after_boot;
      nonempty = ok.nonempty;
      small = ok.small;
    };
    same_content = λ p h.
        same_byte (block_slot (p / bsize)) (p % bsize)
          (block_slot_lt (p / bsize) (omega (arith, h))) (block_slot_ne (p / bsize));
    same_size = g.same_size;
    no_fewer = λ t h n. elim (which_slot t h) [
      | inl (et, _) ↦ absurd (n (ap (slot ip d) et ∙ g.empty))
      | inr (_, e) ↦ e
    ];
    same_inum = g.same_inum;
    old_or_free = λ t h. elim (which_slot t h) [
      | inl (_, e) ↦ inr (subst (λ x. x < sb.size) (sym e) g.inside, ap (used sb d) e ∙ g.free)
      | inr (_, e) ↦ inl e
    ];
    still_used = still_used;
    others = g.others;
  }
