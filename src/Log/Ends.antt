-- ===== src/Log/Ends.antt =====
-- What holds of a run however it ends: `Q` of its result, or `C` of the disk that a crash leaves.
use csci5103_lab.Common.{ℕ, zero, suc, ◌≡◌, refl}
use csci5103_lab.Log.Store.{
  Disk, Store, update, view, Run, done, crashed, M, ◌>>=◌, and_then, pure, bwrite, write_with,
}

abbrev pub Ends : {A : Type 0} → (A → Store → Type 0) → (Disk → Type 0) → Run A → Type 0
Ends Q C (done a s) = Q a s
Ends Q C (crashed d) = C d

module _ {A B : Type 0} (Q : A → Store → Type 0) (R : B → Store → Type 0) (C : Disk → Type 0)
    (f : A → M B) where
  pub Ends-and_then :
      (r : Run A)
      → Ends Q C r
      → ((a : A) (s : Store) → Q a s → Ends R C (f a s))
      → Ends R C (and_then r f)
  Ends-and_then (done a s) q next = next a s q
  Ends-and_then (crashed d) c next = c

  pub Ends-bind :
      (m : M A) (s : Store)
      → Ends Q C (m s)
      → ((a : A) (s' : Store) → Q a s' → Ends R C (f a s'))
      → Ends R C ((m >>= f) s)
  Ends-bind m s q next = Ends-and_then (m s) q next

pub Ends-mono :
    {A : Type 0} (Q R : A → Store → Type 0) (C D : Disk → Type 0) (r : Run A)
    → Ends Q C r
    → ((a : A) (s : Store) → Q a s → R a s)
    → ((d : Disk) → C d → D d)
    → Ends R D r
Ends-mono Q R C D (done a s) q f g = f a s q
Ends-mono Q R C D (crashed d) c f g = g d c

-- A write crashes before it takes effect, or takes effect.
pub bwrite-Ends :
    (b : ℕ) (s : Store) (C : Disk → Type 0)
    → C s.disk
    → Ends (λ _ s'. (s'.disk ≡ update s.disk b (view s b)) × (s'.cache ≡ s.cache)) C (bwrite b s)
unfolding bwrite
bwrite-Ends b s C c = go s.budget
  where
    go :
        (n : ℕ)
        → Ends
            (λ _ s'. (s'.disk ≡ update s.disk b (view s b)) × (s'.cache ≡ s.cache))
            C
            (write_with b n s)
    go zero = c
    go (suc n) = (refl, refl)

-- A call in tail position.
pub Ends-tail :
    {A : Type 0} (Q : A → Store → Type 0) (C : Disk → Type 0) (r : Run A)
    → Ends Q C (and_then r (λ a. pure a))
    → Ends Q C r
Ends-tail Q C (done a s) q = q
Ends-tail Q C (crashed d) c = c
