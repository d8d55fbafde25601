-- ===== src/Cstring/Copy.antt =====
-- `strncpy` of kernel/string.c.
use csci5103_lab.Common.{
  ℕ, zero, suc, ◌+◌, ◌%◌, ◌≤◌, ◌<◌, ◌≡◌, ◌≢◌, ◌⊎◌, inl, inr, refl, sym, ap, ◌∙◌, arith, ◌==◌,
  Bool-cases, ==_iff, differ,
}
use csci5103_lab.Memory.{Memory, load8, store8}
use csci5103_lab.Cstring.{pad_zeros, strncpy_loop, strncpy}

-- The `k` bytes at `s` are those of the string at `t` in `m`, with zeros behind its end.
pub record Pads (k : ℕ) (m : Memory) (s t : ℕ) (r : Memory) : Type 0 where
  pub text :
      (i : ℕ) → i < k → ((j : ℕ) → j < i → load8 m (t + j) ≢ 0) → load8 r (s + i) ≡ load8 m (t + i)
  pub zeros : (i j : ℕ) → i < k → j < i → load8 m (t + j) ≡ 0 → load8 r (s + i) ≡ 0
  pub others : (b : ℕ) → (b < s) ⊎ (s + k ≤ b) → r b ≡ m b

next : (s i : ℕ) → s + 1 + i ≡ s + suc i
next s i = omega arith

-- A store at `s` seen from elsewhere
store_apart : (m : Memory) (s v b : ℕ) → b ≢ s → store8 m s v b ≡ m b
store_apart m s v b n = ground (arith, n)

store_here : (m : Memory) (s v b : ℕ) → b ≡ s → load8 (store8 m s v) b ≡ v % 256
store_here m s v b e = ground (arith, e)

pad_zeros_lem :
    (k : ℕ) (m : Memory) (s : ℕ)
    → ((i : ℕ) → i < k → load8 (pad_zeros k m s) (s + i) ≡ 0)
      × ((b : ℕ) → (b < s) ⊎ (s + k ≤ b) → pad_zeros k m s b ≡ m b)
unfolding pad_zeros
pad_zeros_lem zero m s = (λ i h. absurd (omega (arith, h)), λ b o. refl)
pad_zeros_lem (suc k) m s =
    let (zeros, others) = pad_zeros_lem k (store8 m s 0) (s + 1) in
    (at zeros others, λ b o. others b (omega (arith, o)) ∙ store_apart m s 0 b (omega (arith, o)))
  where
    at :
        {r : Memory}
        → ((i : ℕ) → i < k → load8 r (s + 1 + i) ≡ 0)
        → ((b : ℕ) → (b < s + 1) ⊎ (s + 1 + k ≤ b) → r b ≡ store8 m s 0 b)
        → (i : ℕ) → i < suc k
        → load8 r (s + i) ≡ 0
    at {r} zeros others zero h =
        ap (λ x. x % 256) (others (s + 0) (inl (omega arith)))
        ∙ store_here m s 0 (s + 0) (omega arith)
    at {r} zeros others (suc i) h = ap (load8 r) (sym (next s i)) ∙ zeros i (omega (arith, h))

-- The first byte, and the others
module _ (k : ℕ) (m : Memory) (s t : ℕ)
    (apart : (j : ℕ) → j < suc k → (t + j < s) ⊎ (s + suc k ≤ t + j)) where
  abbrev first_copied : Memory
  first_copied = store8 m s (load8 m t)

  source_kept : (j : ℕ) → j < suc k → load8 first_copied (t + j) ≡ load8 m (t + j)
  source_kept j h =
      ap (λ x. x % 256) (store_apart m s (load8 m t) (t + j) (omega (arith, apart j h)))

  first_byte :
      (r : Memory)
      → ((b : ℕ) → (b < s + 1) ⊎ (s + 1 + k ≤ b) → r b ≡ first_copied b)
      → load8 r (s + 0) ≡ load8 m (t + 0)
  first_byte r others =
      ap (λ x. x % 256) (others (s + 0) (inl (omega arith)))
      ∙ store_here m s (load8 m t) (s + 0) (omega arith)
      ∙ twice (m t)
      ∙ ap (load8 m) (plus_zero t)
    where
      twice : (x : ℕ) → x % 256 % 256 ≡ x % 256
      twice x = omega arith

      plus_zero : (x : ℕ) → x ≡ x + 0
      plus_zero x = omega arith

  outside :
      (r : Memory)
      → ((b : ℕ) → (b < s + 1) ⊎ (s + 1 + k ≤ b) → r b ≡ first_copied b)
      → (b : ℕ) → (b < s) ⊎ (s + suc k ≤ b)
      → r b ≡ m b
  outside r others b o =
      others b (omega (arith, o)) ∙ store_apart m s (load8 m t) b (omega (arith, o))

  null-Pads :
      load8 m t ≡ 0
      → (r : Memory) → ((i : ℕ) → i < k → load8 r (s + 1 + i) ≡ 0)
      → ((b : ℕ) → (b < s + 1) ⊎ (s + 1 + k ≤ b) → r b ≡ first_copied b)
      → Pads (suc k) m s t r
  null-Pads null r padded others = record {
    text = λ i.
        elim i
          as (λ i.
            i < suc k
            → ((j : ℕ) → j < i → load8 m (t + j) ≢ 0)
            → load8 r (s + i) ≡ load8 m (t + i)) [
              | zero ↦ λ h before. first_byte r others
              | suc i ↦
                  λ h before. absurd (before 0 (omega arith) (ap (load8 m) (at_start t) ∙ null))
            ];
    zeros = λ i j h l z.
        elim i as (λ i. i < suc k → j < i → load8 r (s + i) ≡ 0) [
          | zero ↦ λ _ l. absurd (omega (arith, l))
          | suc i ↦ λ h _. ap (load8 r) (sym (next s i)) ∙ padded i (omega (arith, h))
        ]
          h l;
    others = outside r others;
  }
    where
      at_start : (x : ℕ) → x + 0 ≡ x
      at_start x = omega arith

  more-Pads :
      load8 m t ≢ 0 → (r : Memory) → Pads k first_copied (s + 1) (t + 1) r → Pads (suc k) m s t r
  more-Pads more r p = record {
    text = λ i.
        elim i
          as (λ i.
            i < suc k
            → ((j : ℕ) → j < i → load8 m (t + j) ≢ 0)
            → load8 r (s + i) ≡ load8 m (t + i)) [
              | zero ↦ λ h before. first_byte r p.others
              | suc i ↦ λ h before.
                  ap (load8 r) (sym (next s i))
                  ∙ p.text i (omega (arith, h)) (λ j l z.
                    before (suc j) (omega (arith, l)) (sym (from j (omega (arith, l, h))) ∙ z))
                  ∙ from i (omega (arith, h))
            ];
    zeros = λ i j h l z.
        elim i as (λ i. i < suc k → j < i → load8 r (s + i) ≡ 0) [
          | zero ↦ λ _ l. absurd (omega (arith, l))
          | suc i ↦ λ h l.
              elim j as (λ j. j < suc i → load8 m (t + j) ≡ 0 → load8 r (s + suc i) ≡ 0) [
                | zero ↦ λ _ z. absurd (more (ap (load8 m) (sym (at_start t)) ∙ z))
                | suc j ↦ λ l z.
                    ap (load8 r) (sym (next s i))
                    ∙ p.zeros i j (omega (arith, h)) (omega (arith, l))
                        (from j (omega (arith, l, h)) ∙ z)
              ]
                l z
        ]
          h l;
    others = outside r p.others;
  }
    where
      at_start : (x : ℕ) → x + 0 ≡ x
      at_start x = omega arith

      from : (j : ℕ) → j < k → load8 first_copied (t + 1 + j) ≡ load8 m (t + suc j)
      from j h = ap (load8 first_copied) (next t j) ∙ source_kept (suc j) (omega (arith, h))

strncpy_loop-Pads :
    (k : ℕ) (m : Memory) (s t : ℕ)
    → ((j : ℕ) → j < k → (t + j < s) ⊎ (s + k ≤ t + j))
    → Pads k m s t (strncpy_loop k m s t)
unfolding strncpy_loop
strncpy_loop-Pads zero m s t apart = record {
  text = λ i h. absurd (omega (arith, h));
  zeros = λ i j h. absurd (omega (arith, h));
  others = λ b o. refl;
}
strncpy_loop-Pads (suc k) m s t apart = elim (Bool-cases (load8 m t == 0)) [
  | inl e ↦
      let padded = pad_zeros_lem k (store8 m s (load8 m t)) (s + 1) in
      rw e (null-Pads k m s t apart ((==_iff _ 0).0 e) _ padded.0 padded.1)
  | inr e ↦ rw e (
      more-Pads k m s t apart (λ z. differ e ((==_iff _ 0).1 z)) _
        (strncpy_loop-Pads k (store8 m s (load8 m t)) (s + 1) (t + 1)
          (λ j h. omega (arith, apart (suc j) (omega (arith, h))))))
]

-- Of a string apart from the `n` bytes at `s`: `strncpy` puts the bytes up to the first null byte there, as far as
-- there is room, and zeros behind them, and changes no other byte.
pub strncpy-Pads :
    (n : ℕ) (m : Memory) (s t : ℕ)
    → ((j : ℕ) → j < n → (t + j < s) ⊎ (s + n ≤ t + j))
    → Pads n m s t (strncpy m s t n)
unfolding strncpy
strncpy-Pads n m s t apart = strncpy_loop-Pads n m s t apart
