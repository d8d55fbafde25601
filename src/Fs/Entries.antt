-- ===== src/Fs/Entries.antt =====
-- The entries of the table of kernel/fs.c: what `iget` finds, and entries after a change of one.
use mathlib.Core.Path.{subst}
use csci5103_lab.Common.{
  some-inj, ℕ, suc, ◌+◌, ◌≤◌, ◌<◌, ◌≡◌, ◌≢◌, ◌↔◌, ◌⊎◌, inl, inr, refl, sym, ap, ◌∙◌, arith, Bool,
  true, false, ◌&&◌, Option, none, some, List, [], ◌∷◌, length, set, get_or-set_self, get_or-set_ne,
  ltb, ◌==◌, Bool-cases, ==_iff, differ,
}
use csci5103_lab.Fs.Itable.{
  Inode, no_inode, inode_at, Search, cached, recycle, or_first, iget_search,
}

pub set-entries :
    (P : ℕ → Inode → Type 0) (is : List Inode) (i : ℕ) (x : Inode)
    → i < length is
    → P i x
    → ((j : ℕ) → j ≢ i → P j (inode_at is j))
    → (j : ℕ) → P j (inode_at (set is i x) j)
set-entries P is i x h here others j = elim (Bool-cases (j == i)) [
  | inl e ↦
      subst (λ k. P k (inode_at (set is i x) k)) (sym ((==_iff j i).0 e))
        (subst (P i) (sym (get_or-set_self is i x no_inode h)) here)
  | inr e ↦
      let n : j ≢ i = λ z. differ e ((==_iff j i).1 z) in
      subst (P j) (sym (get_or-set_ne is x no_inode (λ z. n (sym z)))) (others j n)
]

-- An entry in use for the inode
abbrev pub IsFor : ℕ → ℕ → Inode → Type 0
IsFor dev inum x = (0 < x.ref) × (x.dev ≡ dev) × (x.inum ≡ inum)

-- What a search finds among `n` entries from `i` on, where `empty` was free before.
pub data Finds (f : ℕ → Inode) (dev inum i n : ℕ) (empty : Option ℕ) : Search → Type 0 where
  hit : {j : ℕ} → i ≤ j → j < i + n → IsFor dev inum (f j) → Finds f dev inum i n empty (cached j)
  full :
      empty ≡ none
      → ((j : ℕ) → i ≤ j → j < i + n → ¬ IsFor dev inum (f j))
      → ((j : ℕ) → i ≤ j → j < i + n → 0 < (f j).ref)
      → Finds f dev inum i n empty (recycle none)
  free :
      {e : ℕ}
      → (empty ≡ some e) ⊎ ((i ≤ e) × (e < i + n) × ((f e).ref ≡ 0))
      → ((j : ℕ) → i ≤ j → j < i + n → ¬ IsFor dev inum (f j))
      → Finds f dev inum i n empty (recycle (some e))

entry_test :
    (dev inum : ℕ) (x : Inode)
    → ((ltb 0 x.ref && (x.dev == dev) && (x.inum == inum)) ≡ true) ↔ IsFor dev inum x
entry_test dev inum x = ground arith

first_or_none :
    (empty : Option ℕ) (i : ℕ) (unused : Bool)
    → or_first empty i unused ≡ none
    → (empty ≡ none) × (unused ≡ false)
first_or_none none i true e = absurd cc
first_or_none none i false e = (refl, refl)
first_or_none (some k) i unused e = absurd cc

first_or_old :
    (empty : Option ℕ) (i e : ℕ) (unused : Bool)
    → or_first empty i unused ≡ some e
    → (empty ≡ some e) ⊎ ((i ≡ e) × (unused ≡ true))
first_or_old none i e true z = inr (some-inj z, refl)
first_or_old none i e false z = absurd cc
first_or_old (some k) i e unused z = inl z

positive : (n : ℕ) → (n == 0) ≡ false → 0 < n
positive n e = ground (arith, e)

module _ (f : ℕ → Inode) (dev inum i n : ℕ) (others : ¬ IsFor dev inum (f i)) where
  -- No entry from `i` on, if none from the next
  none_from :
      ((j : ℕ) → i + 1 ≤ j → j < i + 1 + n → ¬ IsFor dev inum (f j))
      → (j : ℕ) → i ≤ j
      → j < i + suc n
      → ¬ IsFor dev inum (f j)
  none_from later j h k m = elim (Bool-cases (j == i)) [
    | inl e ↦ others (subst (λ x. IsFor dev inum (f x)) ((==_iff j i).0 e) m)
    | inr e ↦ later j (ground (arith, h, e)) (omega (arith, k)) m
  ]

  first_free :
      (empty : Option ℕ) {e : ℕ}
      → (or_first empty i ((f i).ref == 0) ≡ some e)
        ⊎ ((i + 1 ≤ e) × (e < i + 1 + n) × ((f e).ref ≡ 0))
      → (empty ≡ some e) ⊎ ((i ≤ e) × (e < i + suc n) × ((f e).ref ≡ 0))
  first_free empty {e} (inl z) = elim (first_or_old empty i e _ z) [
    | inl old ↦ inl old
    | inr (same, unused) ↦
        let here : (f i).ref ≡ 0 = (==_iff (f i).ref 0).0 unused in
        inr (omega (arith, same), omega (arith, same), subst (λ x. (f x).ref ≡ 0) same here)
  ]
  first_free empty (inr (h, k, z)) = inr (omega (arith, h), omega (arith, k), z)

  step-Finds :
      (empty : Option ℕ) (r : Search)
      → Finds f dev inum (i + 1) n (or_first empty i ((f i).ref == 0)) r
      → Finds f dev inum i (suc n) empty r
  step-Finds empty _ (hit h k m) = hit (omega (arith, h)) (omega (arith, k)) m
  step-Finds empty _ (full e absent used) =
      full (first_or_none empty i _ e).0 (none_from absent) (λ j h k. elim (Bool-cases (j == i)) [
        | inl same ↦
            subst (λ x. 0 < (f x).ref) (sym ((==_iff j i).0 same))
              (positive (f i).ref (first_or_none empty i _ e).1)
        | inr other ↦ used j (ground (arith, h, other)) (omega (arith, k))
      ])
  step-Finds empty _ (free e absent) = free (first_free empty e) (none_from absent)

pub iget_search-Finds :
    (f : ℕ → Inode) (dev inum i : ℕ) (empty : Option ℕ) (is : List Inode)
    → ((k : ℕ) → k < length is → f (i + k) ≡ inode_at is k)
    → Finds f dev inum i (length is) empty (iget_search dev inum i empty is)
unfolding iget_search
iget_search-Finds f dev inum i none [] same =
    full refl (λ j h k. absurd (omega (arith, h, k))) (λ j h k. absurd (omega (arith, h, k)))
iget_search-Finds f dev inum i (some e) [] same =
    free (inl refl) (λ j h k. absurd (omega (arith, h, k)))
iget_search-Finds f dev inum i empty (ip ∷ is) same =
    let here : f i ≡ ip = ap f (omega arith) ∙ same 0 (omega arith) in
    elim (Bool-cases (ltb 0 ip.ref && (ip.dev == dev) && (ip.inum == inum))) [
      | inl e ↦ rw e (
          hit (omega arith) (omega arith)
            (subst (IsFor dev inum) (sym here) ((entry_test dev inum ip).0 e)))
      | inr e ↦ rw e (
          step-Finds f dev inum i (length is)
            (λ m. differ e ((entry_test dev inum ip).1 (subst (IsFor dev inum) here m))) empty _
            (subst
              (λ x.
                Finds f dev inum (i + 1) (length is) (or_first empty i (x.ref == 0))
                  (iget_search dev inum (i + 1) (or_first empty i (ip.ref == 0)) is))
              (sym here)
              (iget_search-Finds f dev inum (i + 1) (or_first empty i (ip.ref == 0)) is
                (λ k h. ap f (omega arith) ∙ same (suc k) (omega (arith, h))))))
    ]
