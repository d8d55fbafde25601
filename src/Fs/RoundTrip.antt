-- ===== src/Fs/RoundTrip.antt =====
-- `readi` after `writei`, of kernel/fs.c.
use csci5103_lab.Common.{
  ℕ, ◌+◌, ◌-◌, ◌*◌, ◌^◌, ◌≤◌, ◌<◌, ◌≡◌, inl, inr, ap, ◌∙◌, arith, Bool, true, false, some, ltb,
  if◌then◌else◌,
}
use csci5103_lab.Memory.{in_range}
use csci5103_lab.Fs.Itable.{Inode}
use csci5103_lab.Fs.Blocks.{Superblock, Block, Disk, bsize}
use csci5103_lab.Fs.Bitmap.{IsReserved}
use csci5103_lab.Fs.Slots.{content, IsFile}
use csci5103_lab.Fs.Content.{maxfile, is_outside, Read, readi, Write, writei}
use csci5103_lab.Fs.Storing.{CopiesIn, overwrite}
use csci5103_lab.Fs.Writei.{Written, writei-Written}
use csci5103_lab.Fs.Copied.{Bytes, copied, copied-cong, CopiesOut}
use csci5103_lab.Fs.Reading.{Reads, readi_loop-Reads}

-- Bytes that are left in the file
abbrev pub left : Inode → ℕ → ℕ → ℕ
left ip off n = if ltb ip.size (off + n) then ip.size - off else n

-- Where `either_copyout` succeeds and copies, the blocks of the inode are in use, different, and hold no bitmap and no
-- inodes, the bitmap and the inodes are in use and apart, the size is at most that of the largest
-- file, `off` is in the file and `off + n` does not wrap: `readi` returns a number of bytes, which is the
-- smaller of `n` and what the file has from `off` on, unless it comes to a block that is missing
-- with no free block on the disk; so many bytes of the content are in the memory, which is as before beyond
-- them; and the content, the size and the blocks of the file, and what other blocks in use hold, are kept.
pub readi-Reads :
    (sb : Superblock) (either_copyout : ℕ → Block → ℕ → Bytes → Bool × Bytes) (ip : Inode)
    (d : Disk) (dst off n : ℕ) (mem : Bytes)
    → CopiesOut either_copyout
    → IsFile sb ip d
    → IsReserved sb d
    → ip.size ≤ maxfile * bsize
    → off ≤ ip.size
    → off + n < 2 ^ 32
    → (count : ℕ) × (r : Read Bytes) × (readi sb either_copyout dst off n ip d mem ≡ some r)
      × Reads sb (left ip off n) 0 off dst ip d mem count r
unfolding readi
readi-Reads sb either_copyout ip d dst off n mem copies file ok small le fits =
    let m = left ip off n in
    let within : off + m ≤ ip.size = ground (arith, le) in
    let inside : is_outside ip off n ≡ false = ground (arith, le, fits) in
    rw inside (
      readi_loop-Reads sb either_copyout copies (m + 1) m 0 off dst ip d mem (omega arith)
        (omega arith) (omega (arith, within, small)) file ok)

stored_byte :
    (old source : ℕ → ℕ) (off src tot i : ℕ)
    → i < tot
    → overwrite old off source src tot (off + i) ≡ source (src + i)
stored_byte old source off src tot i h =
    let inside : in_range off tot (off + i) ≡ true = ground (arith, h) in
    let index : off + i - off ≡ i = omega arith in rw inside (ap (λ k. source (src + k)) index)

minus_zero : (count : ℕ) {tot : ℕ} → count ≡ tot → count - 0 ≡ tot
minus_zero count e = omega (arith, e)

-- The bytes that `writei` wrote
module _ (sb : Superblock) (source : ℕ → ℕ) (ip : Inode) (d : Disk) (off src n tot dst : ℕ)
    (mem : Bytes) (w : Write) (fits : off + n ≤ maxfile * bsize)
    (written : Written sb source ip d off src n tot w) where
  left_written : left w.inode off tot ≡ tot
  left_written = ground (arith, written.size)

  all_read :
      (count : ℕ) (r : Read Bytes)
      → Reads sb (left w.inode off tot) 0 off dst w.inode w.disk mem count r
      → count ≡ tot
  all_read count r reads = elim reads.ends [
    | inl f ↦ f ∙ left_written
    | inr (lt, hole, _) ↦ absurd (
        written.filled (off + (count - 0)) (omega (arith, lt, left_written, written.most, fits))
          (ground (arith, lt, left_written)) hole)
  ]

  same_bytes :
      (count : ℕ) (r : Read Bytes)
      → Reads sb (left w.inode off tot) 0 off dst w.inode w.disk mem count r
      → (x : ℕ) → r.memory x ≡ copied source src dst tot mem x
  same_bytes count r reads x =
      let whole = all_read count r reads in
      reads.memory x
      ∙ copied-cong (content w.inode w.disk) source off src dst (count - 0) mem x (λ i l.
        written.written (off + i) (omega (arith, l, whole, written.most, fits))
        ∙ stored_byte (content ip d) source off src tot i (omega (arith, l, whole)))
      ∙ ap (λ m. copied source src dst m mem x) (minus_zero count whole)

  read_back :
      (either_copyout : ℕ → Block → ℕ → Bytes → Bool × Bytes)
      → CopiesOut either_copyout
      → ip.size ≤ maxfile * bsize
      → (r : Read Bytes) × (readi sb either_copyout dst off tot w.inode w.disk mem ≡ some r)
        × (r.count ≡ some tot)
        × ((x : ℕ) → r.memory x ≡ copied source src dst tot mem x)
  read_back either_copyout copies small =
      let (count, r, e, reads) =
        readi-Reads sb either_copyout w.inode w.disk dst off tot mem copies written.file
          written.reserved (ground (arith, written.size, written.most, small, fits))
          (ground (arith, written.size)) (omega (arith, written.most, fits)) in
      (r, e, reads.returned ∙ ap some (all_read count r reads), same_bytes count r reads)

-- Where the copies succeed, the blocks of the inode and the reserved blocks are as for `writei`, the size is at most that
-- of the largest file, `off` is in the file and `off + n` is not beyond the largest file: the bytes that
-- `writei` returns as written are the bytes that `readi` at `off` then returns, all of them, and
-- the rest of the memory is as before.
pub readi-writei :
    (sb : Superblock) (either_copyin : Block → ℕ → ℕ → ℕ → Bool × Block) (source : ℕ → ℕ)
    (either_copyout : ℕ → Block → ℕ → Bytes → Bool × Bytes) (ip : Inode) (d : Disk)
    (off src n dst : ℕ) (mem : Bytes)
    → CopiesIn either_copyin source
    → CopiesOut either_copyout
    → IsFile sb ip d
    → IsReserved sb d
    → ip.inum < sb.ninodes
    → ip.size ≤ maxfile * bsize
    → off ≤ ip.size
    → off + n ≤ maxfile * bsize
    → (tot : ℕ) × (w : Write) × (r : Read Bytes) × (writei sb either_copyin src off n ip d ≡ some w)
      × (w.count ≡ some tot)
      × (readi sb either_copyout dst off tot w.inode w.disk mem ≡ some r)
      × (r.count ≡ some tot)
      × ((x : ℕ) → r.memory x ≡ copied source src dst tot mem x)
readi-writei sb either_copyin source either_copyout ip d off src n dst mem copies_in copies_out file
      ok known small le fits =
    let (tot, w, e, written) =
      writei-Written sb either_copyin source ip d off src n copies_in file ok known le fits in
    let (r, f, g, h) =
      read_back sb source ip d off src n tot dst mem w fits written either_copyout copies_out
        small in
    (tot, w, r, e, written.returned, f, g, h)
