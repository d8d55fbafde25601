-- ===== src/Memory/Entry.antt =====
-- 32-bit words in a block of them.
use mathlib.Core.Path.{subst}
use csci5103_lab.Common.{
  ℕ, ◌+◌, ◌-◌, ◌*◌, ◌/◌, ◌%◌, ◌^◌, ◌≤◌, ◌<◌, ◌≡◌, ◌≢◌, ◌⊎◌, arith, sym, inl, inr, ◌==◌, ==_iff,
  differ, if◌then◌else◌, Bool-cases,
}
use csci5103_lab.Memory.{Memory, load32, store32}
use csci5103_lab.Memory.Word.{in_range-true, in_range-false}

store32_byte : (m : Memory) (a v i : ℕ) → i < 4 → store32 m a v (a + i) ≡ v / 2 ^ (8 * i) % 256
unfolding store32
store32_byte m a v i h =
    let e : a + i - a ≡ i = omega arith in
    rw (in_range-true a 4 (a + i) (omega arith) (omega arith), e)

store32_first : (m : Memory) (a v : ℕ) → store32 m a v a ≡ v % 256
unfolding store32
store32_first m a v =
    let e : a - a ≡ 0 = omega arith in
    rw (in_range-true a 4 a (omega arith) (omega arith), e) (omega arith)

load32-store32 : (m : Memory) (a v : ℕ) → v < 2 ^ 32 → load32 (store32 m a v) a ≡ v
unfolding load32
load32-store32 m a v h = omega (
  arith,
  store32_first m a v,
  store32_byte m a v 1 (omega arith),
  store32_byte m a v 2 (omega arith),
  store32_byte m a v 3 (omega arith),
)

store32_apart : (m : Memory) (a v b : ℕ) → (b < a) ⊎ (a + 4 ≤ b) → store32 m a v b ≡ m b
unfolding store32
store32_apart m a v b h = rw (in_range-false a 4 b h)

-- Another entry
load32-store32_ne :
    (m : Memory) (i j v : ℕ) → i ≢ j → load32 (store32 m (4 * i) v) (4 * j) ≡ load32 m (4 * j)
unfolding load32
load32-store32_ne m i j v n = omega (
  arith,
  store32_apart m (4 * i) v (4 * j) (ground (arith, n)),
  store32_apart m (4 * i) v (4 * j + 1) (ground (arith, n)),
  store32_apart m (4 * i) v (4 * j + 2) (ground (arith, n)),
  store32_apart m (4 * i) v (4 * j + 3) (ground (arith, n)),
)

pub load32-zero : (m : Memory) (a : ℕ) → ((b : ℕ) → m b ≡ 0) → load32 m a ≡ 0
unfolding load32
load32-zero m a z = omega (arith, z a, z (a + 1), z (a + 2), z (a + 3))

pub load32-store32_at :
    (m : Memory) (i j v : ℕ)
    → v < 2 ^ 32
    → load32 (store32 m (4 * i) v) (4 * j) ≡ (if j == i then v else load32 m (4 * j))
load32-store32_at m i j v h = elim (Bool-cases (j == i)) [
  | inl e ↦ rw e (
      subst (λ k. load32 (store32 m (4 * i) v) (4 * k) ≡ v) (sym ((==_iff j i).0 e))
        (load32-store32 m (4 * i) v h))
  | inr e ↦ rw e (load32-store32_ne m i j v (λ z. differ e ((==_iff j i).1 (sym z))))
]
