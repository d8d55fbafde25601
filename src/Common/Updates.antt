-- ===== src/Common/Updates.antt =====
-- Tables as functions, changed at one index.
use Prim.Native.Nat.{ℕ}
use mathlib.Core.Path.{◌≡◌, refl, sym, subst}
use mathlib.Core.Logic.{◌≢◌, inl, inr}
use csci5103_lab.Common.Tests.{◌==◌, if◌then◌else◌, Bool-cases, ==_iff, ==_refl, ==_false, differ}

abbrev pub put {ℓ} : {A : Type ℓ} → (ℕ → A) → ℕ → A → (ℕ → A)
put f i x = λ j. if j == i then x else f j

-- What holds of the changed entry and of the others holds of each.
pub pointwise {ℓ κ} :
    {A : Type ℓ} (P : ℕ → A → Type κ) (b : ℕ) (f : ℕ → A) (x : A)
    → P b x
    → ((j : ℕ) → j ≢ b → P j (f j))
    → (j : ℕ) → P j (put f b x j)
pointwise P b f x here others j = elim (Bool-cases (j == b)) [
  | inl e ↦ rw e (subst (λ i. P i x) (sym ((==_iff j b).0 e)) here)
  | inr e ↦ rw e (others j (λ z. differ e ((==_iff j b).1 z)))
]

-- Of two tables that change at the same index
pub pointwise_both {ℓ κ μ} :
    {A : Type ℓ} {B : Type κ} (P : ℕ → A → B → Type μ) (b : ℕ) (f : ℕ → A) (x : A) (g : ℕ → B)
    (y : B)
    → P b x y
    → ((j : ℕ) → j ≢ b → P j (f j) (g j))
    → (j : ℕ) → P j (put f b x j) (put g b y j)
pointwise_both P b f x g y here others j = elim (Bool-cases (j == b)) [
  | inl e ↦ rw e (subst (λ i. P i x y) (sym ((==_iff j b).0 e)) here)
  | inr e ↦ rw e (others j (λ z. differ e ((==_iff j b).1 z)))
]

pub put_self {ℓ} : {A : Type ℓ} (f : ℕ → A) (i : ℕ) (x : A) → put f i x i ≡ x
put_self f i x = rw (==_refl i) refl

pub put_ne {ℓ} : {A : Type ℓ} (f : ℕ → A) (i j : ℕ) (x : A) → j ≢ i → put f i x j ≡ f j
put_ne f i j x n = rw (==_false j i n) refl
