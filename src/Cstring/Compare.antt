-- ===== src/Cstring/Compare.antt =====
-- `memcmp` and `strncmp` of kernel/string.c. A block or a string is its bytes from a pointer on.
use csci5103_lab.Common.{
  ℕ, zero, suc, ◌+◌, ◌-◌, ◌%◌, ◌^◌, ◌≤◌, ◌<◌, ◌≡◌, ◌≢◌, ◌↔◌, inl, inr, refl, sym, ap, ◌∙◌, arith,
  not, ◌&&◌, ◌==◌, if◌then◌else◌, Bool-cases, ==_iff, differ,
}

-- `n` bytes from `i` on; the result is an `int`, of 32 bits.
unfoldable pub memcmp : ℕ → ℕ → (ℕ → ℕ) → (ℕ → ℕ) → ℕ
memcmp zero i p q = 0
memcmp (suc n) i p q =
    let rest = memcmp n (i + 1) p q in if p i == q i then rest else (p i + 2 ^ 32 - q i) % 2 ^ 32

unfoldable pub strncmp : ℕ → ℕ → (ℕ → ℕ) → (ℕ → ℕ) → ℕ
strncmp zero i p q = 0
strncmp (suc n) i p q =
    let rest = strncmp n (i + 1) p q in
    if not (p i == 0) && (p i == q i) then rest else (p i + 2 ^ 32 - q i) % 2 ^ 32

-- The same byte at each index, up to the first null byte
abbrev pub SameString : ℕ → ℕ → (ℕ → ℕ) → (ℕ → ℕ) → Type 0
SameString n i p q = (k : ℕ) → i ≤ k → k < i + n → ((j : ℕ) → i ≤ j → j < k → p j ≢ 0) → p k ≡ q k

module _ (p q : ℕ → ℕ) (p_byte : (k : ℕ) → p k < 256) (q_byte : (k : ℕ) → q k < 256) where
  difference : (i : ℕ) → (p i + 2 ^ 32 - q i) % 2 ^ 32 ≡ 0 → p i ≡ q i
  difference i e = omega (arith, e, p_byte i, q_byte i)

  strncmp-same : (n i : ℕ) → strncmp n i p q ≡ 0 → SameString n i p q
  unfolding strncmp
  strncmp-same zero i e k h l before = absurd (omega (arith, h, l))
  strncmp-same (suc n) i e k h l before = elim (Bool-cases (not (p i == 0) && (p i == q i))) [
    | inl f ↦
        let rest : strncmp n (i + 1) p q ≡ 0 =
          sym (ap (λ b. if b then strncmp n (i + 1) p q else (p i + 2 ^ 32 - q i) % 2 ^ 32) f)
          ∙ e in
        elim (Bool-cases (k == i)) [
          | inl same ↦ ground (arith, same, f)
          | inr other ↦
              strncmp-same n (i + 1) rest k (ground (arith, other, h)) (omega (arith, l))
                (λ j u v. before j (omega (arith, u)) v)
        ]
    | inr f ↦
        let equal : p i ≡ q i = difference i (
          sym (ap (λ b. if b then strncmp n (i + 1) p q else (p i + 2 ^ 32 - q i) % 2 ^ 32) f)
          ∙ e) in
        let null : p i ≡ 0 = ground (arith, f, equal) in
        elim (Bool-cases (k == i)) [
          | inl same ↦ let here : k ≡ i = (==_iff k i).0 same in ap p here ∙ equal ∙ ap q (sym here)
          | inr other ↦ absurd (before i (omega arith) (ground (arith, other, h)) null)
        ]
  ]

  same-strncmp : (n i : ℕ) → SameString n i p q → strncmp n i p q ≡ 0
  unfolding strncmp
  same-strncmp zero i s = refl
  same-strncmp (suc n) i s =
      let equal : p i ≡ q i =
        s i (omega arith) (omega arith) (λ j h l. absurd (omega (arith, h, l))) in
      elim (Bool-cases (not (p i == 0) && (p i == q i))) [
        | inr f ↦ rw f (omega (arith, equal, q_byte i))
        | inl f ↦ rw f (
            same-strncmp n (i + 1) (λ k h l before.
              s k (omega (arith, h)) (omega (arith, l)) (λ j u v. elim (Bool-cases (j == i)) [
                | inl here ↦ λ z. ground (arith, f, ap p (sym ((==_iff j i).0 here)) ∙ z)
                | inr later ↦ before j (ground (arith, u, later)) v
              ])))
      ]

-- Only the bytes below `i + n` count.
pub strncmp-cong :
    (n i : ℕ) (p q q' : ℕ → ℕ)
    → ((k : ℕ) → k < i + n → q k ≡ q' k)
    → strncmp n i p q ≡ strncmp n i p q'
unfolding strncmp
strncmp-cong zero i p q q' e = refl
strncmp-cong (suc n) i p q q' e =
    let rest = strncmp-cong n (i + 1) p q q' (λ k h. e k (omega (arith, h))) in
    rw (e i (omega arith), rest) refl

-- `strncmp` of strings of bytes is 0 exactly if they have the same byte at each of the first `n` indices, up to the first
-- null byte.
pub strncmp-SameString :
    (p q : ℕ → ℕ)
    → ((k : ℕ) → p k < 256)
    → ((k : ℕ) → q k < 256)
    → (n : ℕ) → (strncmp n 0 p q ≡ 0) ↔ SameString n 0 p q
strncmp-SameString p q h l n = (strncmp-same p q h l n 0, same-strncmp p q h l n 0)

-- `memcmp` of blocks of bytes is 0 exactly if the `n` bytes from `i` on are the same.
pub memcmp-SameBytes :
    (p q : ℕ → ℕ)
    → ((k : ℕ) → p k < 256)
    → ((k : ℕ) → q k < 256)
    → (n i : ℕ) → (memcmp n i p q ≡ 0) ↔ ((k : ℕ) → i ≤ k → k < i + n → p k ≡ q k)
unfolding memcmp
memcmp-SameBytes p q h l zero i = (λ e k a b. absurd (omega (arith, a, b)), λ s. refl)
memcmp-SameBytes p q h l (suc n) i =
    let rest = memcmp-SameBytes p q h l n (i + 1) in
    elim (Bool-cases (p i == q i)) [
      | inl f ↦
          let here : p i ≡ q i = (==_iff (p i) (q i)).0 f in
          rw f (
            λ e k a b. elim (Bool-cases (k == i)) [
              | inl same ↦ let at : k ≡ i = (==_iff k i).0 same in ap p at ∙ here ∙ ap q (sym at)
              | inr other ↦ rest.0 e k (ground (arith, other, a)) (omega (arith, b))
            ],
            λ s. rest.1 (λ k a b. s k (omega (arith, a)) (omega (arith, b))),
          )
      | inr f ↦ rw f (
        λ e. absurd (differ f ((==_iff (p i) (q i)).1 (difference p q h l i e))),
        λ s. absurd (differ f ((==_iff (p i) (q i)).1 (s i (omega arith) (omega arith)))),
      )
    ]
