-- ===== src/Bio/Lru.antt =====
-- The loops of kernel/bio.c on the list of the buffers.
use mathlib.Core.Path.{subst}
use csci5103_lab.Common.{
  differ, ℕ, suc, ◌<◌, ◌≡◌, ◌≢◌, ◌↔◌, sym, inl, inr, arith, Bool, true, false, ◌&&◌, Option, none,
  some, List, [], ◌∷◌, ◌==◌, if◌then◌else◌, Bool-cases, ==_iff, ==_refl,
}
use csci5103_lab.Bio.{Buf, find_cached, find_unused, or_here, unlink}

-- How often a buffer is in the list
abbrev pub count : ℕ → List ℕ → ℕ
count b [] = 0
count b (x ∷ xs) = if x == b then suc (count b xs) else count b xs

pub count-unlink : (j b : ℕ) (xs : List ℕ) → count b xs ≡ 1 → count j (b ∷ unlink b xs) ≡ count j xs
count-unlink j b [] h = absurd (omega arith)
count-unlink j b (x ∷ xs) h = elim (Bool-cases (x == b)) [
  | inl e ↦ rw e (ground (arith, e))
  | inr e ↦
      let later : count j (b ∷ unlink b xs) ≡ count j xs =
        count-unlink j b xs (ground (arith, h, e)) in
      rw e (ground (arith, later))
]

-- A buffer holds the block.
abbrev pub IsBlock : Buf → ℕ → ℕ → Type 0
IsBlock x dev blockno = (x.dev ≡ dev) × (x.blockno ≡ blockno)

pub data Found (bufs : ℕ → Buf) (dev blockno : ℕ) (xs : List ℕ) : Option ℕ → Type 0 where
  one : {b : ℕ} → 0 < count b xs → IsBlock (bufs b) dev blockno → Found bufs dev blockno xs (some b)
  missing :
      ((j : ℕ) → 0 < count j xs → ¬ IsBlock (bufs j) dev blockno) → Found bufs dev blockno xs none

module _ (bufs : ℕ → Buf) (dev blockno : ℕ) where
  abbrev is_match : ℕ → Bool
  is_match b = (bufs b).dev == dev && ((bufs b).blockno == blockno)

  match_iff : (b : ℕ) → (is_match b ≡ true) ↔ IsBlock (bufs b) dev blockno
  match_iff b = ground arith

  step_Found :
      (x : ℕ) (xs : List ℕ) (r : Option ℕ)
      → is_match x ≡ false
      → Found bufs dev blockno xs r
      → Found bufs dev blockno (x ∷ xs) r
  step_Found x xs r e (one h m) = one (ground (arith, h)) m
  step_Found x xs r e (missing absent) = missing (λ j h m. elim (Bool-cases (x == j)) [
    | inl same ↦
        differ e (
          (match_iff x).1 (subst (λ i. IsBlock (bufs i) dev blockno) (sym ((==_iff x j).0 same)) m))
    | inr other ↦ absent j (rw other at h) m
  ])

  pub find_cached-Found :
      (xs : List ℕ) → Found bufs dev blockno xs (find_cached bufs dev blockno xs)
  find_cached-Found [] = missing (λ j h. absurd (omega (arith, h)))
  find_cached-Found (x ∷ xs) = elim (Bool-cases (is_match x)) [
    | inl e ↦ rw e (one (rw (==_refl x) (omega arith)) ((match_iff x).0 e))
    | inr e ↦ rw e (step_Found x xs _ e (find_cached-Found xs))
  ]

-- What the second loop of `bget` finds
pub data Unused (bufs : ℕ → Buf) (xs : List ℕ) : Option ℕ → Type 0 where
  one : {b : ℕ} → 0 < count b xs → (bufs b).refcnt ≡ 0 → Unused bufs xs (some b)
  missing : ((j : ℕ) → 0 < count j xs → (bufs j).refcnt ≢ 0) → Unused bufs xs none

module _ (bufs : ℕ → Buf) where
  or_here-Unused :
      (x : ℕ) (xs : List ℕ) (r : Option ℕ)
      → Unused bufs xs r
      → Unused bufs (x ∷ xs) (or_here r x ((bufs x).refcnt == 0))
  or_here-Unused x xs r (one h u) = one (ground (arith, h)) u
  or_here-Unused x xs r (missing absent) = elim (Bool-cases ((bufs x).refcnt == 0)) [
    | inl e ↦ rw e (one (rw (==_refl x) (omega arith)) ((==_iff _ 0).0 e))
    | inr e ↦ rw e (
        missing (λ j h z. elim (Bool-cases (x == j)) [
          | inl same ↦ differ e (
              (==_iff (bufs x).refcnt 0).1
                (subst (λ i. (bufs i).refcnt ≡ 0) (sym ((==_iff x j).0 same)) z))
          | inr other ↦ absent j (rw other at h) z
        ]))
  ]

  pub find_unused-Unused : (xs : List ℕ) → Unused bufs xs (find_unused bufs xs)
  find_unused-Unused [] = missing (λ j h. absurd (omega (arith, h)))
  find_unused-Unused (x ∷ xs) = or_here-Unused x xs _ (find_unused-Unused xs)
