-- ===== src/Fs/Writing.antt =====
-- A write to a data block of a file of kernel/fs.c.
use mathlib.Core.Path.{subst}
use csci5103_lab.Common.Bit.{bit}
use csci5103_lab.Common.{
  ℕ, ◌-◌, ◌*◌, ◌/◌, ◌%◌, ◌<◌, ◌≡◌, ◌≢◌, inl, inr, sym, ap, ◌∙◌, put, put_self, put_ne, ltb,
  ltb-true_lt, ltb-false_le, ◌==◌, if◌then◌else◌, Bool-cases, ==_iff, differ,
}
use csci5103_lab.Memory.{load32}
use csci5103_lab.Fs.Itable.{Inode}
use csci5103_lab.Fs.Blocks.{Superblock, Block, Disk, bpb, bblock, iblock}
use csci5103_lab.Fs.Bitmap.{used, IsReserved}
use csci5103_lab.Fs.Bmap.{addr_at}
use csci5103_lab.Fs.Slots.{
  nslots, slot, slot_low, slot_high, byte_of, byte_of-zero, byte_of-nonzero, IsFile,
}

-- A block `a` that holds no bitmap and no entries of the file changes.
module _ (sb : Superblock) (ip : Inode) (d : Disk) (file : IsFile sb ip d) (ok : IsReserved sb d)
    (a : ℕ) (x : Block) (data_block : (j : ℕ) → j < sb.size → a ≢ bblock sb j)
    (direct : a ≢ addr_at ip 12) where
  pub used-write : (j : ℕ) → j < sb.size → used sb (put d a x) j ≡ used sb d j
  used-write j h =
      ap (λ (y : Block). bit (y (j % bpb / 8)) (j % 8))
        (put_ne d a (bblock sb j) x (λ z. data_block j h (sym z)))

  pub slot-write : (t : ℕ) → slot ip (put d a x) t ≡ slot ip d t
  slot-write t = elim (Bool-cases (ltb t 13)) [
    | inl e ↦
        slot_low ip (put d a x) t (ltb-true_lt t 13 e) ∙ sym (slot_low ip d t (ltb-true_lt t 13 e))
    | inr e ↦
        let h = ltb-false_le t 13 e in
        slot_high ip (put d a x) t h
        ∙ ap (λ (y : Block). if addr_at ip 12 == 0 then 0 else load32 y (4 * (t - 13)))
            (put_ne d a (addr_at ip 12) x (λ z. direct (sym z)))
        ∙ sym (slot_high ip d t h)
  ]

  pub write-IsReserved : IsReserved sb (put d a x)
  write-IsReserved = record {
    first = used-write 0 ok.nonempty ∙ ok.first;
    bitmap = λ j h. used-write (bblock sb j) (ok.bitmap_inside j h) ∙ ok.bitmap j h;
    bitmap_inside = ok.bitmap_inside;
    inodes = λ i h. used-write (iblock sb i) (ok.inodes_inside i h) ∙ ok.inodes i h;
    inodes_inside = ok.inodes_inside;
    apart = ok.apart;
    inodes_after_boot = ok.inodes_after_boot;
    nonempty = ok.nonempty;
    small = ok.small;
  }

  pub write-IsFile : IsFile sb ip (put d a x)
  write-IsFile = record {
    entries = file.entries;
    inside = λ s h n.
        subst (λ b. b < sb.size) (sym (slot-write s)) (file.inside s h (λ z. n (slot-write s ∙ z)));
    in_use = λ s h n.
        let m : slot ip d s ≢ 0 = λ z. n (slot-write s ∙ z) in
        subst (λ b. used sb (put d a x) b ≡ 1) (sym (slot-write s))
          (used-write (slot ip d s) (file.inside s h m) ∙ file.in_use s h m);
    no_bitmap =
        λ s j h n k z. file.no_bitmap s j h (λ w. n (slot-write s ∙ w)) k (sym (slot-write s) ∙ z);
    no_inodes =
        λ s i h n k z. file.no_inodes s i h (λ w. n (slot-write s ∙ w)) k (sym (slot-write s) ∙ z);
    distinct = λ s t h k n e.
        file.distinct s t h k (λ w. n (slot-write s ∙ w)) (sym (slot-write s) ∙ e ∙ slot-write t);
  }

  -- The bytes of the file
  byte-unmoved :
      (t i : ℕ)
      → (slot ip d t ≢ 0 → slot ip d t ≢ a)
      → byte_of (put d a x) (slot ip d t) i ≡ byte_of d (slot ip d t) i
  byte-unmoved t i apart = elim (Bool-cases (slot ip d t == 0)) [
    | inl z ↦
        let w = (==_iff (slot ip d t) 0).0 z in
        byte_of-zero (put d a x) i w ∙ sym (byte_of-zero d i w)
    | inr z ↦
        let w : slot ip d t ≢ 0 = λ v. differ z ((==_iff (slot ip d t) 0).1 v) in
        byte_of-nonzero (put d a x) i w
        ∙ ap (λ (y : Block). y i) (put_ne d a (slot ip d t) x (apart w))
        ∙ sym (byte_of-nonzero d i w)
  ]

  pub byte-elsewhere :
      (t i : ℕ)
      → (slot ip d t ≢ 0 → slot ip d t ≢ a)
      → byte_of (put d a x) (slot ip (put d a x) t) i ≡ byte_of d (slot ip d t) i
  byte-elsewhere t i apart =
      ap (λ b. byte_of (put d a x) b i) (slot-write t) ∙ byte-unmoved t i apart

  pub byte-write :
      (s t i : ℕ)
      → s < nslots
      → t < nslots
      → a ≢ 0
      → a ≡ slot ip d s
      → byte_of (put d a x) (slot ip (put d a x) t) i
        ≡ (if t == s then x i else byte_of d (slot ip d t) i)
  byte-write s t i h k n e =
      ap (λ b. byte_of (put d a x) b i) (slot-write t) ∙ elim (Bool-cases (t == s)) [
        | inl same ↦
            let here : slot ip d t ≡ a = ap (slot ip d) ((==_iff t s).0 same) ∙ sym e in
            rw same (
              ap (λ b. byte_of (put d a x) b i) here
              ∙ byte_of-nonzero (put d a x) i n
              ∙ ap (λ (y : Block). y i) (put_self d a x))
        | inr other ↦ rw other (
            byte-unmoved t i
              (λ w v. differ other ((==_iff t s).1 (file.distinct t s k h w (v ∙ e)))))
      ]
