-- ===== src/Ulib/Numbers.antt =====
-- What `strcmp`, `strchr` and `atoi` of user/ulib.c give.
use csci5103_lab.Common.{
  ℕ, ◌+◌, ◌-◌, ◌*◌, ◌%◌, ◌^◌, ◌<◌, ◌≡◌, ◌≢◌, ◌↔◌, refl, sym, ap, ◌∙◌, arith, true, false, List, [],
  ◌∷◌, ◌++◌, All, NotIn, some, ◌==◌, Bool-cases, inl, inr, ==_iff, ==_refl, ==_false, differ,
}
use csci5103_lab.Ulib.{strcmp, strchr, is_digit, atoi_loop, atoi}

-- The number that decimal digits mean, behind those of `n`
abbrev pub decimal : List ℕ → ℕ → ℕ
decimal [] n = n
decimal (c ∷ s) n = decimal s (n * 10 + (c - 48))

-- The text does not go on with a digit.
abbrev pub EndsDigits : List ℕ → Type 0
EndsDigits [] = Unit
EndsDigits (c ∷ s) = is_digit c ≡ false

digit_step :
    (n m c : ℕ)
    → is_digit c ≡ true
    → n % 2 ^ 32 ≡ m % 2 ^ 32
    → (n * 10 + c - 48) % 2 ^ 32 % 2 ^ 32 ≡ (m * 10 + (c - 48)) % 2 ^ 32
digit_step n m c e f = ground (arith, e, f)

atoi_loop-decimal :
    (digits rest : List ℕ) (n m : ℕ)
    → All (λ c. is_digit c ≡ true) digits
    → EndsDigits rest
    → n % 2 ^ 32 ≡ m % 2 ^ 32
    → atoi_loop (digits ++ rest) n % 2 ^ 32 ≡ decimal digits m % 2 ^ 32
unfolding atoi_loop
atoi_loop-decimal [] [] n m d e f = f
atoi_loop-decimal [] (c ∷ s) n m d e f = rw e f
atoi_loop-decimal (c ∷ digits) rest n m (d, ds) e f =
    rw d (atoi_loop-decimal digits rest _ (m * 10 + (c - 48)) ds e (digit_step n m c d f))

-- `atoi` of a text that starts with decimal digits is the number that they mean, up to the first character that is no
-- digit, modulo 2 to the 32.
pub atoi-decimal :
    (digits rest : List ℕ)
    → All (λ c. is_digit c ≡ true) digits
    → EndsDigits rest
    → atoi (digits ++ rest) % 2 ^ 32 ≡ decimal digits 0 % 2 ^ 32
unfolding atoi
atoi-decimal digits rest d e = atoi_loop-decimal digits rest 0 0 d e refl

-- `strchr` finds the first place of a character: none comes before it.
pub strchr-first :
    (before s : List ℕ) (c : ℕ) → NotIn c before → strchr (before ++ c ∷ s) c ≡ some (c ∷ s)
unfolding strchr
strchr-first [] s c n = rw (==_refl c) refl
strchr-first (x ∷ before) s c (n, ns) =
    rw (==_false x c (λ z. n (sym z))) (strchr-first before s c ns)

cons-inj : {x y : ℕ} {p q : List ℕ} → x ∷ p ≡ y ∷ q → (x ≡ y) × (p ≡ q)
cons-inj e = (cc, cc)

-- `strcmp` of strings of bytes is 0 exactly if they are the same.
pub strcmp-same :
    (p q : List ℕ)
    → All (λ c. (c ≢ 0) × (c < 256)) p
    → All (λ c. (c ≢ 0) × (c < 256)) q
    → (strcmp p q ≡ 0) ↔ (p ≡ q)
unfolding strcmp
strcmp-same [] [] h l = (λ e. refl, λ e. refl)
strcmp-same [] (y ∷ q) h ((n, l), ls) = (λ e. absurd (n (omega (arith, e, l))), λ e. absurd cc)
strcmp-same (x ∷ p) [] ((n, h), hs) l = (λ e. absurd (n (omega (arith, e, h))), λ e. absurd cc)
strcmp-same (x ∷ p) (y ∷ q) ((_, h), hs) ((_, l), ls) =
    let rest = strcmp-same p q hs ls in
    elim (Bool-cases (x == y)) [
      | inl f ↦
          let here : x ≡ y = (==_iff x y).0 f in
          rw f (λ e. ap (λ c. c ∷ p) here ∙ ap (λ s. y ∷ s) (rest.0 e), λ e. rest.1 (cons-inj e).1)
      | inr f ↦
          let other : x ≢ y = λ z. differ f ((==_iff x y).1 z) in
          rw f (λ e. absurd (other (omega (arith, e, h, l))), λ e. absurd (other (cons-inj e).0))
    ]
