-- ===== src/Fs/Writei.antt =====
-- `writei` of kernel/fs.c, on the content of the file.
use mathlib.Core.Path.{subst}
use csci5103_lab.Common.{
  ℕ, ◌+◌, ◌-◌, ◌*◌, ◌/◌, ◌%◌, ◌≤◌, ◌<◌, ◌≡◌, ◌≢◌, ◌⊎◌, inl, inr, refl, sym, ap, ◌∙◌, arith, Bool,
  true, false, ◌||◌, some, put, put_ne, ltb, if◌then◌else◌, Bool-cases,
}
use csci5103_lab.Memory.{in_range}
use csci5103_lab.Fs.Itable.{Inode}
use csci5103_lab.Fs.Blocks.{Superblock, Block, Disk, bsize, bblock, iblock}
use csci5103_lab.Fs.Bitmap.{used, IsReserved}
use csci5103_lab.Fs.Bmap.{addr_at}
use csci5103_lab.Fs.Slots.{nslots, slot, slot_low, block_slot, block_slot_lt, content, IsFile}
use csci5103_lab.Fs.Writing.{used-write, slot-write, byte-elsewhere, write-IsReserved, write-IsFile}
use csci5103_lab.Fs.Content.{
  maxfile, with_dinode, iupdate, is_outside, Progress, Write, grown, writei,
}
use csci5103_lab.Fs.Storing.{CopiesIn, overwrite}
use csci5103_lab.Fs.WriteLoop.{Stores, writei_loop-Ends}

-- What holds after `tot` bytes of `n` have been written.
pub record Written (sb : Superblock) (source : ℕ → ℕ) (ip : Inode) (d : Disk) (off src n tot : ℕ)
    (w : Write) : Type 0 where
  pub returned : w.count ≡ some tot
  pub most : tot ≤ n
  pub ends : (tot ≡ n) ⊎ ((j : ℕ) → j < sb.size → used sb w.disk j ≡ 1)
  pub size : w.inode.size ≡ (if ltb ip.size (off + tot) then off + tot else ip.size)
  pub written :
      (p : ℕ)
      → p < maxfile * bsize
      → content w.inode w.disk p ≡ overwrite (content ip d) off source src tot p
  pub filled :
      (p : ℕ)
      → p < maxfile * bsize
      → in_range off tot p ≡ true
      → slot w.inode w.disk (block_slot (p / bsize)) ≢ 0
  pub file : IsFile sb w.inode w.disk
  pub reserved : IsReserved sb w.disk
  pub others :
      (x : ℕ)
      → x < sb.size
      → used sb d x ≡ 1
      → ((j : ℕ) → j < sb.size → x ≢ bblock sb j)
      → ((s : ℕ) → s < nslots → x ≢ slot ip d s)
      → x ≢ iblock sb ip.inum
      → w.disk x ≡ d x

-- `grown` changes the size only.
grown_lem :
    (sb : Superblock) (p : Progress)
    → grown sb p ≡ record p.inode { size = if ltb p.inode.size p.off then p.off else p.inode.size }
grown_lem sb p = elim (Bool-cases (ltb p.inode.size p.off)) [
  | inl e ↦ rw e refl
  | inr e ↦ rw e refl
]

module _ (sb : Superblock) (source : ℕ → ℕ) (ip : Inode) (d : Disk) (off src n : ℕ)
    (ok : IsReserved sb d) (known : ip.inum < sb.ninodes) where
  resized-IsFile :
      (i : Inode) (d' : Disk) (z : ℕ) → IsFile sb i d' → IsFile sb (record i { size = z }) d'
  resized-IsFile i d' z file = record {
    entries = file.entries;
    inside = file.inside;
    in_use = file.in_use;
    no_bitmap = file.no_bitmap;
    no_inodes = file.no_inodes;
    distinct = file.distinct;
  }

  -- The inode goes to its block, which is no block of a file.
  update-Written :
      (q : Progress) (z : ℕ)
      → z ≡ (if ltb q.inode.size q.off then q.off else q.inode.size)
      → Stores sb source n 0 off src ip d q
      → Written sb source ip d off src n q.tot (record {
        count = some q.tot;
        inode = record q.inode { size = z };
        disk = iupdate sb (record q.inode { size = z }) q.disk;
      })
  unfolding iupdate
  update-Written q z e s = record {
    returned = refl;
    most = s.most;
    ends = elim s.ends [
      | inl f ↦ inl f
      | inr f ↦ inr (λ j h.
          used-write sb q.inode q.disk file s.stored.reserved a x no_bitmap direct j h ∙ f j h)
    ];
    size = e ∙ ground (arith, s.at_end, s.stored.same_size);
    written = λ p h.
        same_byte p h
        ∙ s.stored.stored p h
        ∙ ap (λ m. overwrite (content ip d) off source src m p) (minus_zero q.tot);
    filled = λ p h f z. s.stored.filled p h (ap (λ m. in_range off m p) (minus_zero q.tot) ∙ f) (
        sym (
          slot-write sb q.inode q.disk file s.stored.reserved a x no_bitmap direct
            (block_slot (p / bsize)))
        ∙ z);
    file =
        resized-IsFile q.inode _ z
          (write-IsFile sb q.inode q.disk file s.stored.reserved a x no_bitmap direct);
    reserved = write-IsReserved sb q.inode q.disk file s.stored.reserved a x no_bitmap direct;
    others = λ y h u b o i.
        put_ne q.disk a y x (λ w. i (w ∙ ap (iblock sb) s.stored.same_inum))
        ∙ s.stored.others y h u b o;
  }
    where
      a : ℕ
      a = iblock sb q.inode.inum

      minus_zero : (m : ℕ) → m - 0 ≡ m
      minus_zero m = omega arith

      x : Block
      x = with_dinode (q.disk a) (64 * (q.inode.inum % 16)) (record q.inode { size = z })

      file : IsFile sb q.inode q.disk
      file = s.stored.file

      mine : q.inode.inum < sb.ninodes
      mine = subst (λ i. i < sb.ninodes) (sym s.stored.same_inum) known

      no_bitmap : (j : ℕ) → j < sb.size → a ≢ bblock sb j
      no_bitmap j h = ok.apart q.inode.inum j mine h

      direct : a ≢ addr_at q.inode 12
      direct w =
          let here : slot q.inode q.disk 12 ≡ a =
            slot_low q.inode q.disk 12 (omega arith) ∙ sym w in
          file.no_inodes 12 q.inode.inum (omega arith)
            (λ v. absurd (omega (arith, v, here, ok.inodes_after_boot))) mine here

      same_byte :
          (p : ℕ)
          → p < maxfile * bsize
          → content q.inode (put q.disk a x) p ≡ content q.inode q.disk p
      same_byte p h =
          byte-elsewhere sb q.inode q.disk file s.stored.reserved a x no_bitmap direct
            (block_slot (p / bsize)) (p % bsize)
            (λ v w.
              file.no_inodes (block_slot (p / bsize)) q.inode.inum
                (block_slot_lt (p / bsize) (omega (arith, h))) v mine w)

-- Where `either_copyin` succeeds and copies, the blocks of the inode are in use, different, and hold no bitmap and no
-- inodes, the bitmap and the inodes are in use and apart, `off` is in the file and `off + n` is not beyond
-- the largest file: `writei` returns a number of bytes, which is `n` unless every block of
-- the disk is in use; the content of the file is the old one with so many bytes of the source at `off`, each of them
-- in a block that the file has; the size is the larger of the old one and the end of the bytes;
-- the blocks are as before in use and different; and every block in use that is no bitmap, no block of
-- the file and not the block of its inode keeps its bytes.
pub writei-Written :
    (sb : Superblock) (either_copyin : Block → ℕ → ℕ → ℕ → Bool × Block) (source : ℕ → ℕ)
    (ip : Inode) (d : Disk) (off src n : ℕ)
    → CopiesIn either_copyin source
    → IsFile sb ip d
    → IsReserved sb d
    → ip.inum < sb.ninodes
    → off ≤ ip.size
    → off + n ≤ maxfile * bsize
    → (tot : ℕ) × (w : Write) × (writei sb either_copyin src off n ip d ≡ some w)
      × Written sb source ip d off src n tot w
unfolding writei
writei-Written sb either_copyin source ip d off src n copies file ok known le fits =
    let loop =
      writei_loop-Ends sb source either_copyin copies (n + 1) n 0 off src ip d (omega arith)
        (omega arith) (omega (arith, fits)) file ok in
    let q = loop.0 in
    let inside : (is_outside ip off n || ltb (maxfile * bsize) (off + n)) ≡ false =
      ground (arith, le, fits) in
    rw (inside, loop.1, grown_lem sb q)
      (q.tot, _, refl, update-Written sb source ip d off src n ok known q _ refl loop.2)
