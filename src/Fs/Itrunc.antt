-- ===== src/Fs/Itrunc.antt =====
-- What `itrunc` of kernel/fs.c leaves.
use csci5103_lab.Common.Bit.{bit}
use csci5103_lab.Common.{
  ℕ, ◌-◌, ◌*◌, ◌/◌, ◌%◌, ◌≤◌, ◌<◌, ◌≡◌, ◌≢◌, inl, inr, refl, sym, ap, ◌∙◌, arith, Bool, true, some,
  List, get_or, set, length-set, put, put_ne, ltb, ltb-true_lt, ltb-false_le, lt→ltb, ltb-eq-false,
  ◌==◌, if◌then◌else◌, Bool-cases, ==_iff, differ,
}
use csci5103_lab.Fs.Itable.{Inode}
use csci5103_lab.Fs.Blocks.{Superblock, Block, Disk, bpb, bblock, iblock, bfree}
use csci5103_lab.Fs.Bitmap.{used, IsReserved}
use csci5103_lab.Fs.Bmap.{addr_at}
use csci5103_lab.Fs.Slots.{nslots, slot, slot_low, slot_high, entry_of-zero, IsFile}
use csci5103_lab.Fs.Content.{with_dinode, iupdate}
use csci5103_lab.Fs.Truncate.{free_block, free_indirect, itrunc}
use csci5103_lab.Fs.Truncating.{
  Cleared, same-Cleared, Partly, below, nothing-Cleared, next-Partly, free_block-Cleared,
  free_direct-Cleared, free_entries-Cleared,
}

-- A file without blocks, and a disk where they are free
pub record Truncates (sb : Superblock) (ip : Inode) (d : Disk) (ip' : Inode) (d' : Disk)
    : Type 0 where
  pub same_inode : ip' ≡ record ip { addrs = ip'.addrs; size = 0 }
  pub no_slot : (s : ℕ) → s < nslots → slot ip' d' s ≡ 0
  pub freed : (s : ℕ) → s < nslots → slot ip d s ≢ 0 → used sb d' (slot ip d s) ≡ 0
  pub kept :
      (j : ℕ)
      → j < sb.size
      → ((s : ℕ) → s < nslots → slot ip d s ≢ 0 → j ≢ slot ip d s)
      → used sb d' j ≡ used sb d j
  pub blocks :
      (x : ℕ) → ((j : ℕ) → j < sb.size → x ≢ bblock sb j) → x ≢ iblock sb ip.inum → d' x ≡ d x
  pub file : IsFile sb ip' d'
  pub reserved : IsReserved sb d'

module _ (sb : Superblock) (ip : Inode) (d : Disk) (file : IsFile sb ip d)
    (ok : IsReserved sb d) where
  -- All slots that have a block are done.
  abbrev AllCleared : Disk → Type 0
  AllCleared = Cleared sb ip d file ok (λ _. true)

  rest-Cleared :
      (done : ℕ → Bool) (d' : Disk)
      → ((s : ℕ) → s < nslots → slot ip d s ≢ 0 → done s ≡ true)
      → Cleared sb ip d file ok done d'
      → AllCleared d'
  rest-Cleared done d' all c = record {
    freed = λ s h _ n. c.freed s h (all s h n) n;
    kept = λ j a. c.kept j (λ s h _ n. a s h refl n);
    blocks = c.blocks;
  }

  free_indirect-Cleared :
      (d1 : Disk)
      → Cleared sb ip d file ok (below sb ip d file ok 12) d1
      → (d2 : Disk) × (free_indirect sb (addr_at ip 12) d1 ≡ some d2) × AllCleared d2
  free_indirect-Cleared d1 c = elim (Bool-cases (addr_at ip 12 == 0)) [
    | inl e ↦ (
      d1,
      rw e refl,
      rest-Cleared _ d1
          (λ s h n. elim (Bool-cases (ltb s 12)) [
            | inl f ↦ ground (arith, f)
            | inr f ↦ absurd (n (beyond s ((==_iff _ 0).0 e) (ltb-false_le s 12 f)))
          ])
          c,
    )
    | inr e ↦
        let n : addr_at ip 12 ≢ 0 = λ z. differ e ((==_iff _ 0).1 z) in
        let at : slot ip d 12 ≡ addr_at ip 12 = slot_low ip d 12 (omega arith) in
        let (d2, f, c2) =
          free_entries-Cleared sb ip d file ok 256 0 d1 n refl
            (same-Cleared sb ip d file ok _ (below sb ip d file ok 13) d1 (λ t. ground arith) c) in
        let (d3, g, c3) =
          free_block-Cleared sb ip d file ok (below sb ip d file ok 269) d2 12 (omega arith) refl
            c2 in
        let frees : free_block sb (slot ip d 12) d2 ≡ bfree sb (addr_at ip 12) d2 =
          ap (λ a. free_block sb a d2) at
          ∙ ap (λ b. if b then some d2 else bfree sb (addr_at ip 12) d2) e in
        (d3, rw (e, f) (sym frees ∙ g), rest-Cleared _ d3 (λ s h m. ground (arith, h)) c3)
  ]
    where
      beyond : (s : ℕ) → addr_at ip 12 ≡ 0 → 12 ≤ s → slot ip d s ≡ 0
      beyond s z h = elim (Bool-cases (ltb s 13)) [
        | inl e ↦
            let twelve : s ≡ 12 = ground (arith, e, h) in
            ap (slot ip d) twelve ∙ slot_low ip d 12 (omega arith) ∙ z
        | inr e ↦ slot_high ip d s (ltb-false_le s 13 e) ∙ entry_of-zero d (s - 13) z
      ]

  -- The inode without its blocks
  module _ (addrs : List ℕ) (d1 : Disk) (known : ip.inum < sb.ninodes)
      (p : Partly sb ip d file ok 12 addrs) (c : AllCleared d1) where
    abbrev empty_inode : Inode
    empty_inode = record ip { addrs = set addrs 12 0; size = 0 }

    abbrev empty_disk : Disk
    empty_disk =
        put d1 (iblock sb ip.inum)
          (with_dinode (d1 (iblock sb ip.inum)) (64 * (ip.inum % 16)) empty_inode)

    same_bits : (j : ℕ) → j < sb.size → used sb empty_disk j ≡ used sb d1 j
    same_bits j h =
        ap (λ (y : Block). bit (y (j % bpb / 8)) (j % 8))
          (put_ne d1 (iblock sb ip.inum) (bblock sb j) _ (λ z. ok.apart ip.inum j known h (sym z)))

    apart_used :
        (j : ℕ)
        → j < sb.size
        → ((s : ℕ) → s < nslots → slot ip d s ≢ 0 → j ≢ slot ip d s)
        → used sb empty_disk j ≡ used sb d j
    apart_used j h a = same_bits j h ∙ c.kept j (λ s k _ n. a s k n)

    all_zero : (t : ℕ) → t < 13 → addr_at empty_inode t ≡ 0
    all_zero t h =
        (next-Partly sb ip d file ok 12 addrs (omega arith) p).rest t
        ∙ ap (λ b. if b then 0 else addr_at ip t) (lt→ltb t 13 h)

    no_slots : (s : ℕ) → slot empty_inode empty_disk s ≡ 0
    no_slots s = elim (Bool-cases (ltb s 13)) [
      | inl e ↦
          slot_low empty_inode empty_disk s (ltb-true_lt s 13 e) ∙ all_zero s (ltb-true_lt s 13 e)
      | inr e ↦
          slot_high empty_inode empty_disk s (ltb-false_le s 13 e)
          ∙ entry_of-zero empty_disk (s - 13) (all_zero 12 (omega arith))
    ]

    empty-Truncates : Truncates sb ip d empty_inode empty_disk
    empty-Truncates = record {
      same_inode = refl;
      no_slot = λ s _. no_slots s;
      freed = λ s h n. same_bits (slot ip d s) (file.inside s h n) ∙ c.freed s h refl n;
      kept = apart_used;
      blocks = λ x b i. put_ne d1 (iblock sb ip.inum) x _ i ∙ c.blocks x b;
      file = record {
        entries = length-set addrs 12 0 ∙ p.entries;
        inside = λ s h n. absurd (n (no_slots s));
        in_use = λ s h n. absurd (n (no_slots s));
        no_bitmap = λ s j h n. absurd (n (no_slots s));
        no_inodes = λ s i h n. absurd (n (no_slots s));
        distinct = λ s t h k n. absurd (n (no_slots s));
      };
      reserved = record {
        first = apart_used 0 ok.nonempty (λ s h n z. n (sym z)) ∙ ok.first;
        bitmap = λ j h.
            apart_used (bblock sb j) (ok.bitmap_inside j h)
              (λ s k n z. file.no_bitmap s j k n h (sym z))
            ∙ ok.bitmap j h;
        bitmap_inside = ok.bitmap_inside;
        inodes = λ i h.
            apart_used (iblock sb i) (ok.inodes_inside i h)
              (λ s k n z. file.no_inodes s i k n h (sym z))
            ∙ ok.inodes i h;
        inodes_inside = ok.inodes_inside;
        apart = ok.apart;
        inodes_after_boot = ok.inodes_after_boot;
        nonempty = ok.nonempty;
        small = ok.small;
      };
    }

  -- Where the blocks of the inode are in use, different, and hold no bitmap and no inodes, and the bitmap and the inodes are
  -- in use and apart: `itrunc` does not panic, and leaves an inode of size 0 without blocks; the blocks that
  -- it had are free, every other block is in use or free as before, and every block but those of the
  -- bitmap and the block of the inode keeps its bytes.
  pub itrunc-Truncates :
      ip.inum < sb.ninodes
      → (ip' : Inode) × (d' : Disk) × (itrunc sb ip d ≡ some (ip', d')) × Truncates sb ip d ip' d'
  unfolding itrunc iupdate
  itrunc-Truncates known =
      let (addrs, d1, e, p, c) =
        free_direct-Cleared sb ip d file ok 12 0 ip.addrs d refl first_addrs
          (nothing-Cleared sb ip d file ok) in
      let indirect : get_or addrs 12 0 ≡ addr_at ip 12 = p.rest 12 in
      let (d2, f, c2) = free_indirect-Cleared d1 c in
      (_, _, rw (e, indirect, f) refl, empty-Truncates addrs d2 known p c2)
    where
      first_addrs : Partly sb ip d file ok 0 ip.addrs
      first_addrs = record {
        entries = file.entries;
        rest = λ t. sym (ap (λ b. if b then 0 else addr_at ip t) (ltb-eq-false t 0 (omega arith)));
      }
