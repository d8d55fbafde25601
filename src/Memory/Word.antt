-- ===== src/Memory/Word.antt =====
-- Words read back what was stored, and survive writes elsewhere.
use csci5103_lab.Common.{
  ℕ, ◌+◌, ◌-◌, ◌*◌, ◌/◌, ◌%◌, ◌^◌, ◌≤◌, ◌<◌, ◌≡◌, ◌≢◌, ◌⊎◌, arith, true, false,
}
use csci5103_lab.Memory.{Memory, store8, in_range, load64, store64, fill}

pub in_range-true : (a n b : ℕ) → a ≤ b → b < a + n → in_range a n b ≡ true
in_range-true a n b h k = ground arith

pub in_range-false : (a n b : ℕ) → (b < a) ⊎ (a + n ≤ b) → in_range a n b ≡ false
in_range-false a n b h = ground arith

pub load64-lt : (m : Memory) (a : ℕ) → load64 m a < 2 ^ 64
unfolding load64
load64-lt m a = omega arith

-- A word depends on its eight bytes only.
pub load64_cong :
    (m m' : Memory) (a : ℕ) → ((b : ℕ) → a ≤ b → b < a + 8 → m' b ≡ m b) → load64 m' a ≡ load64 m a
unfolding load64
load64_cong m m' a h = omega (
  arith,
  h a (omega arith) (omega arith),
  h (a + 1) (omega arith) (omega arith),
  h (a + 2) (omega arith) (omega arith),
  h (a + 3) (omega arith) (omega arith),
  h (a + 4) (omega arith) (omega arith),
  h (a + 5) (omega arith) (omega arith),
  h (a + 6) (omega arith) (omega arith),
  h (a + 7) (omega arith) (omega arith),
)

store64_byte : (m : Memory) (a v i : ℕ) → i < 8 → store64 m a v (a + i) ≡ v / 2 ^ (8 * i) % 256
unfolding store64
store64_byte m a v i h =
    let e : a + i - a ≡ i = omega arith in
    rw (in_range-true a 8 (a + i) (omega arith) (omega arith), e)

store64_first : (m : Memory) (a v : ℕ) → store64 m a v a ≡ v % 256
unfolding store64
store64_first m a v =
    let e : a - a ≡ 0 = omega arith in
    rw (in_range-true a 8 a (omega arith) (omega arith), e) (omega arith)

pub load64-store64 : (m : Memory) (a v : ℕ) → v < 2 ^ 64 → load64 (store64 m a v) a ≡ v
unfolding load64
load64-store64 m a v h = omega (
  arith,
  store64_first m a v,
  store64_byte m a v 1 (omega arith),
  store64_byte m a v 2 (omega arith),
  store64_byte m a v 3 (omega arith),
  store64_byte m a v 4 (omega arith),
  store64_byte m a v 5 (omega arith),
  store64_byte m a v 6 (omega arith),
  store64_byte m a v 7 (omega arith),
)

-- A word stored elsewhere leaves this one.
pub load64-store64_apart :
    (m : Memory) (a v b : ℕ) → (b + 8 ≤ a) ⊎ (a + 8 ≤ b) → load64 (store64 m a v) b ≡ load64 m b
unfolding store64
load64-store64_apart m a v b h =
    load64_cong m _ b (λ c p q. rw (in_range-false a 8 c (ground arith)))

-- So do two aligned words with different addresses.
pub load64-store64_ne :
    (m : Memory) (a v b : ℕ) → a % 8 ≡ 0 → b % 8 ≡ 0 → a ≢ b → load64 (store64 m a v) b ≡ load64 m b
load64-store64_ne m a v b p q n = load64-store64_apart m a v b (ground arith)

pub load64-fill_apart :
    (m : Memory) (a c n b : ℕ) → (b + 8 ≤ a) ⊎ (a + n ≤ b) → load64 (fill m a c n) b ≡ load64 m b
unfolding fill
load64-fill_apart m a c n b h =
    load64_cong m _ b (λ d p q. rw (in_range-false a n d (ground arith)))

-- A word inside zeroed memory is zero.
pub load64-fill_zero :
    (m : Memory) (a n b : ℕ) → a ≤ b → b + 8 ≤ a + n → load64 (fill m a 0 n) b ≡ 0
unfolding fill load64
load64-fill_zero m a n b h k = omega (
  arith,
  z b (omega arith) (omega arith),
  z (b + 1) (omega arith) (omega arith),
  z (b + 2) (omega arith) (omega arith),
  z (b + 3) (omega arith) (omega arith),
  z (b + 4) (omega arith) (omega arith),
  z (b + 5) (omega arith) (omega arith),
  z (b + 6) (omega arith) (omega arith),
  z (b + 7) (omega arith) (omega arith),
)
  where
    z : (c : ℕ) → a ≤ c → c < a + n → fill m a 0 n c ≡ 0
    z c p q = rw (in_range-true a n c p q)

-- A write below `a` or above `a + 7` at one byte leaves the word at `a`.
pub load64-store8_apart :
    (m : Memory) (c v a : ℕ) → (c < a) ⊎ (a + 8 ≤ c) → load64 (store8 m c v) a ≡ load64 m a
load64-store8_apart m c v a h = load64_cong m _ a (λ b p q. ground arith)
