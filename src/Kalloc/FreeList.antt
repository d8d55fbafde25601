-- ===== src/Kalloc/FreeList.antt =====
-- The free list, threaded through the pages of memory, as a list of pages.
use csci5103_lab.Common.{
  ℕ, ◌+◌, ◌%◌, ◌^◌, ◌≤◌, ◌<◌, ◌≡◌, ◌≢◌, ◌↔◌, Bool-cases, ◌⊎◌, inl, inr, refl, arith, List, [], ◌∷◌,
  All, NotIn, false,
}
use csci5103_lab.Riscv.{pgsize, phys_stop}
use csci5103_lab.Memory.{Memory, load64, store64, fill}
use csci5103_lab.Memory.Word.{load64-store64, load64_cong}
use csci5103_lab.Machine.{Machine, Panic, Outcome, ok, panic}
use csci5103_lab.Kalloc.{kalloc, kfree, is_bad_page}

-- From `p` on the first words of the pages lead through `xs` to a null pointer.
abbrev pub Chain : Memory → ℕ → List ℕ → Type 0
Chain m p [] = p ≡ 0
Chain m p (x ∷ xs) = (p ≡ x) × (x ≢ 0) × Chain m (load64 m x) xs

-- A page that the allocator may hold.
pub record IsPage (kernel_end p : ℕ) : Type 0 where
  pub aligned : p % pgsize ≡ 0
  pub above : kernel_end ≤ p
  pub below : p < phys_stop

abbrev pub Distinct : List ℕ → Type 0
Distinct [] = Unit
Distinct (x ∷ xs) = NotIn x xs × Distinct xs

pub record IsFree (kernel_end : ℕ) (s : Machine) (ps : List ℕ) : Type 0 where
  pub chain : Chain s.mem s.freelist ps
  pub pages : All (IsPage kernel_end) ps
  pub distinct : Distinct ps

-- `m'` differs from `m` in the page `p` at most.
abbrev pub SameOutside : ℕ → ℕ → Memory → Memory → Type 0
SameOutside p n m m' = (b : ℕ) → (b < p) ⊎ (p + n ≤ b) → m' b ≡ m b

module _ (kernel_end : ℕ) {m m' : Memory} where
  -- A change of one page keeps a chain through other pages.
  pub Chain-frame :
      (p q : ℕ) (xs : List ℕ)
      → SameOutside p pgsize m m'
      → p % pgsize ≡ 0
      → All (IsPage kernel_end) xs
      → NotIn p xs
      → Chain m q xs
      → Chain m' q xs
  Chain-frame p q [] same a ps out c = c
  Chain-frame p q (x ∷ xs) same a ps out c =
      let e : load64 m' x ≡ load64 m x =
        load64_cong m m' x (λ b h k. same b (apart (ps.0).aligned (out.0) b h k)) in
      (c.0, c.1, rw e (Chain-frame p (load64 m x) xs same a ps.1 out.1 c.2))
    where
      apart : x % pgsize ≡ 0 → p ≢ x → (b : ℕ) → x ≤ b → b < x + 8 → (b < p) ⊎ (p + pgsize ≤ b)
      apart xa n b h k = ground arith

pub SameOutside-fill : (m : Memory) (p c n : ℕ) → SameOutside p n m (fill m p c n)
unfolding fill
SameOutside-fill m p c n b h = ground arith

-- What `kfree` leaves in memory: the page differs, the rest does not.
pub kfree_mem-SameOutside :
    (m : Memory) (p v : ℕ) → SameOutside p pgsize m (store64 (fill m p 1 pgsize) p v)
unfolding fill store64
kfree_mem-SameOutside m p v b h = ground arith

-- What `kalloc` has done when the free list was `ps`.
abbrev pub Allocated : ℕ → Machine → List ℕ → Outcome ℕ → Type 0
Allocated kernel_end s [] r = r ≡ ok 0 s
Allocated kernel_end s (p ∷ rest) r =
    (s' : Machine) × (r ≡ ok p s')
    × IsFree kernel_end s' rest
    × SameOutside p pgsize s.mem s'.mem
    × (s'.superpages ≡ s.superpages)
    × (s'.nfree ≡ s.nfree)

module _ {kernel_end : ℕ} {s : Machine} where
  -- `kalloc` on an empty list returns 0 and changes nothing. From a list that starts with page `p`
  -- it returns `p`, leaves the rest as the list, writes to no byte outside of `p`, and leaves the
  -- superpage pool alone.
  pub kalloc_lem : (ps : List ℕ) → IsFree kernel_end s ps → Allocated kernel_end s ps (kalloc s)
  unfolding kalloc
  kalloc_lem [] f = rw (f.chain)
  kalloc_lem (p ∷ rest) f = (
    record s { freelist = load64 s.mem s.freelist; mem = fill s.mem s.freelist 5 pgsize },
    taken,
    record {
      chain = rw e (
          Chain-frame kernel_end p (load64 s.mem p) rest (SameOutside-fill s.mem p 5 pgsize)
            (f.pages.0).aligned f.pages.1 f.distinct.0 f.chain.2);
      pages = f.pages.1;
      distinct = f.distinct.1;
    },
    rw e (SameOutside-fill s.mem p 5 pgsize),
    refl,
    refl,
  )
    where
      e : s.freelist ≡ p
      e = f.chain.0

      taken :
          kalloc s
          ≡ ok p (record s {
            freelist = load64 s.mem s.freelist;
            mem = fill s.mem s.freelist 5 pgsize;
          })
      taken = ground arith

  -- `kfree` of a page that is not free puts it at the head of the list, writes to no byte
  -- outside of it, and leaves the superpage pool alone.
  pub kfree_lem :
      (p : ℕ) (ps : List ℕ)
      → IsFree kernel_end s ps
      → IsPage kernel_end p
      → p ≢ 0
      → s.freelist < 2 ^ 64
      → NotIn p ps
      → (s' : Machine) × (kfree kernel_end p s ≡ ok tt s')
        × IsFree kernel_end s' (p ∷ ps)
        × SameOutside p pgsize s.mem s'.mem
        × (s'.superpages ≡ s.superpages)
        × (s'.nfree ≡ s.nfree)
  unfolding kfree
  kfree_lem p ps f page nz small out = (
    record s { mem = store64 (fill s.mem p 1 pgsize) p s.freelist; freelist = p },
    rw (good page) refl,
    record {
      chain = (
        refl,
        nz,
        rw (load64-store64 (fill s.mem p 1 pgsize) p s.freelist small) (
            Chain-frame kernel_end p s.freelist ps (kfree_mem-SameOutside s.mem p s.freelist)
              page.aligned f.pages out f.chain),
      );
      pages = (page, f.pages);
      distinct = (out, f.distinct);
    },
    kfree_mem-SameOutside s.mem p s.freelist,
    refl,
    refl,
  )
    where
      good : IsPage kernel_end p → is_bad_page kernel_end p ≡ false
      good g = ground arith

pub IsPage-of_test : (kernel_end p : ℕ) → is_bad_page kernel_end p ≡ false → IsPage kernel_end p
IsPage-of_test kernel_end p e = record {
  aligned = ground arith;
  above = ground arith;
  below = ground arith;
}

-- `kfree` panics exactly on an address that is not page-aligned or not in the allocator's range.
pub kfree_panics :
    (kernel_end p : ℕ) (s : Machine)
    → (kfree kernel_end p s ≡ panic Panic.kfree) ↔ (¬ IsPage kernel_end p)
unfolding kfree
kfree_panics kernel_end p s = (
  λ e page. ground arith,
  λ bad. elim (Bool-cases (is_bad_page kernel_end p)) [
    | inl e ↦ rw e
    | inr e ↦ absurd (bad (IsPage-of_test kernel_end p e))
  ],
)
