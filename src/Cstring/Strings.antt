-- ===== src/Cstring/Strings.antt =====
-- `strlen` and `safestrcpy` of kernel/string.c.
use csci5103_lab.Common.{
  ℕ, zero, suc, ◌+◌, ◌-◌, ◌≤◌, ◌<◌, ◌≡◌, ◌≢◌, ◌⊎◌, inl, inr, refl, ◌∙◌, arith, false, some, ◌==◌,
  Bool-cases, ==_iff, ==_refl,
}
use csci5103_lab.Memory.{Memory, load8, store8}
use csci5103_lab.Cstring.{safestrcpy_loop, safestrcpy, strlen_loop, strlen}

strlen_loop-len :
    (fuel : ℕ) (m : Memory) (s i n : ℕ)
    → ((k : ℕ) → k < n → load8 m (s + k) ≢ 0)
    → load8 m (s + n) ≡ 0
    → i ≤ n
    → n < i + fuel
    → strlen_loop fuel m s i ≡ some n
unfolding strlen_loop
strlen_loop-len zero m s i n body end low high = absurd (omega arith)
strlen_loop-len (suc fuel) m s i n body end low high = elim (Bool-cases (i == n)) [
  | inl here ↦ let there : i ≡ n = (==_iff i n).0 here in rw (there, end) refl
  | inr later ↦
      let before : i < n = ground (arith, later, low) in
      let goes_on : (load8 m (s + i) == 0) ≡ false = ground (arith, body i before) in
      rw goes_on (strlen_loop-len fuel m s (i + 1) n body end (omega arith) (omega arith))
]

-- `strlen` of a string of `n` bytes before its null byte is `n`, in any `n + 1` rounds or more.
pub strlen_lem :
    (fuel : ℕ) (m : Memory) (s n : ℕ)
    → ((k : ℕ) → k < n → load8 m (s + k) ≢ 0)
    → load8 m (s + n) ≡ 0
    → n < fuel
    → strlen fuel m s ≡ some n
unfolding strlen
strlen_lem fuel m s n body end enough =
    strlen_loop-len fuel m s 0 n body end (omega arith) (omega arith)

store8-apart : (m : Memory) (s v k b : ℕ) → (b < s) ⊎ (s + suc k ≤ b) → store8 m s v b ≡ m b
store8-apart m s v k b out = ground (arith, out)

-- The loop stays within its `k` bytes and leaves the others alone.
safestrcpy_loop-within :
    (k : ℕ) (m : Memory) (s t : ℕ)
    → let r = safestrcpy_loop k m s t in
      (s ≤ r.1) × (r.1 ≤ s + k) × ((b : ℕ) → (b < s) ⊎ (s + k ≤ b) → r.0 b ≡ m b)
unfolding safestrcpy_loop
safestrcpy_loop-within zero m s t = (omega arith, omega arith, λ b out. refl)
safestrcpy_loop-within (suc k) m s t = elim (Bool-cases (load8 m t == 0)) [
  | inl null ↦ rw null (omega arith, omega arith, λ b out. store8-apart m s _ k b out)
  | inr more ↦
      let (low, high, same) = safestrcpy_loop-within k (store8 m s (load8 m t)) (s + 1) (t + 1) in
      rw more (
        omega arith,
        omega arith,
        λ b out. same b (omega (arith, out)) ∙ store8-apart m s _ k b out,
      )
]

-- `safestrcpy` into `n` bytes, at least one, leaves a null byte among them and changes no byte outside
-- of them, whatever stands at `t`.
pub safestrcpy_lem :
    (m : Memory) (s t n : ℕ)
    → 0 < n
    → let r = safestrcpy m s t n in
      ((p : ℕ) × (s ≤ p) × (p < s + n) × (load8 r p ≡ 0))
      × ((b : ℕ) → (b < s) ⊎ (s + n ≤ b) → r b ≡ m b)
unfolding safestrcpy
safestrcpy_lem m s t zero h = absurd (omega arith)
safestrcpy_lem m s t (suc k) h =
    let positive : (suc k == 0) ≡ false = ground arith in
    let one_less : suc k - 1 ≡ k = omega arith in
    let (low, high, same) = safestrcpy_loop-within k m s t in
    let r = safestrcpy_loop k m s t in
    rw (positive, one_less)
      (
        (r.1, low, omega (arith, high), rw (==_refl r.1) refl),
        λ b out. ended r.0 r.1 b (omega (arith, low, high, out)) ∙ same b (omega (arith, out)),
      )
  where
    ended : (m' : Memory) (p b : ℕ) → b ≢ p → store8 m' p 0 b ≡ m' b
    ended m' p b n = ground arith
