-- ===== src/Fs/Copied.antt =====
-- What `either_copyout` of kernel/proc.c does to a memory of bytes, as `readi` uses it.
use csci5103_lab.Common.{
  ℕ, ◌+◌, ◌-◌, ◌<◌, ◌≡◌, inl, inr, refl, ap, arith, Bool, true, if◌then◌else◌, Bool-cases,
}
use csci5103_lab.Memory.{in_range}
use csci5103_lab.Fs.Blocks.{Block}

-- The bytes of a memory
abbrev pub Bytes : Type 0
Bytes = ℕ → ℕ

-- `mem` with the `n` bytes that `source` has from `off` on, at `dst`
abbrev pub copied : (ℕ → ℕ) → ℕ → ℕ → ℕ → Bytes → Bytes
copied source off dst n mem x = if in_range dst n x then source (off + (x - dst)) else mem x

-- `either_copyout` succeeds, and puts `m` bytes into the memory.
abbrev pub CopiesOut : (ℕ → Block → ℕ → Bytes → Bool × Bytes) → Type 0
CopiesOut either_copyout =
    (dst m : ℕ) (bytes : Block) (mem : Bytes)
    → ((either_copyout dst bytes m mem).0 ≡ true)
      × ((x : ℕ) → (either_copyout dst bytes m mem).1 x ≡ copied bytes 0 dst m mem x)

pub copied-copied :
    (source : ℕ → ℕ) (off dst m n : ℕ) (mem : Bytes) (x : ℕ)
    → copied source (off + m) (dst + m) n (copied source off dst m mem) x
      ≡ copied source off dst (m + n) mem x
copied-copied source off dst m n mem x = elim (Bool-cases (in_range (dst + m) n x)) [
  | inl e ↦
      let both : in_range dst (m + n) x ≡ true = ground (arith, e) in
      let index : off + m + (x - (dst + m)) ≡ off + (x - dst) = ground (arith, e) in
      rw (e, both) (ap source index)
  | inr e ↦
      let same : in_range dst (m + n) x ≡ in_range dst m x = ground (arith, e) in rw (e, same) refl
]

-- Equal bytes in the range are equal copies.
pub copied-cong :
    (f g : ℕ → ℕ) (a b dst n : ℕ) (mem : Bytes) (x : ℕ)
    → ((i : ℕ) → i < n → f (a + i) ≡ g (b + i))
    → copied f a dst n mem x ≡ copied g b dst n mem x
copied-cong f g a b dst n mem x same = elim (Bool-cases (in_range dst n x)) [
  | inl e ↦ rw e (same (x - dst) (ground (arith, e)))
  | inr e ↦ rw e refl
]
