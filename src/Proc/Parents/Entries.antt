-- ===== src/Proc/Parents/Entries.antt =====
-- The invariant of the table, and entries of a table after one is set.
use csci5103_lab.Common.{
  ℕ, zero, suc, ◌<◌, ◌≡◌, ◌≢◌, ◌⊎◌, inl, inr, refl, sym, ap, Bool, true, false, some, [], ◌∷◌, set,
}
use csci5103_lab.Proc.{ProcState, sleeping, runnable, running, Proc, Table, at}

-- The process has started and not exited.
abbrev pub live : ProcState → Bool
live sleeping = true
live runnable = true
live running = true
live _ = false

abbrev pub IsLive : Table → ℕ → Type 0
IsLive ps i = live (at ps i).state ≡ true

pub record IsTable (init : ℕ) (ps : Table) (nextpid : ℕ) : Type 0 where
  pub init_lives : IsLive ps init
  pub parents_live : (j q : ℕ) → (at ps j).parent ≡ some q → IsLive ps q
  pub pids_differ : (i j : ℕ) → (at ps i).pid ≡ (at ps j).pid → (at ps i).pid ≢ 0 → i ≡ j
  pub pids_below : (j : ℕ) → (at ps j).pid < nextpid

pub at-set :
    (ps : Table) (i : ℕ) (p : Proc) (j : ℕ)
    → ((i ≡ j) × (at (set ps i p) j ≡ p)) ⊎ (at (set ps i p) j ≡ at ps j)
at-set [] i p j = inr refl
at-set (x ∷ ps) zero p zero = inl (refl, refl)
at-set (x ∷ ps) zero p (suc j) = inr refl
at-set (x ∷ ps) (suc i) p zero = inr refl
at-set (x ∷ ps) (suc i) p (suc j) = elim (at-set ps i p j) [
  | inl (e, f) ↦ inl (ap suc e, f)
  | inr f ↦ inr f
]

-- A property of an entry after a change of entry `i`.
pub at-set_all :
    (P : ℕ → Proc → Type 0) (ps : Table) (i : ℕ) (p : Proc)
    → P i p
    → ((j : ℕ) → P j (at ps j))
    → (j : ℕ) → P j (at (set ps i p) j)
at-set_all P ps i p new old j = elim (at-set ps i p j) [
  | inl (e, f) ↦ rw (f, sym e) new
  | inr f ↦ rw f (old j)
]

pub set-IsLive :
    (ps : Table) (i : ℕ) (p : Proc)
    → (live (at ps i).state ≡ true → live p.state ≡ true)
    → (q : ℕ) → IsLive ps q
    → IsLive (set ps i p) q
set-IsLive ps i p keeps =
    at-set_all (λ q x. IsLive ps q → live x.state ≡ true) ps i p keeps (λ q h. h)
