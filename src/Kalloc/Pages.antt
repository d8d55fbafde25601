-- ===== src/Kalloc/Pages.antt =====
-- `freerange` and `kinit`: which pages the allocator starts with.
use csci5103_lab.Common.{
  NotIn, ℕ, zero, suc, ◌+◌, ◌-◌, ◌*◌, ◌/◌, ◌%◌, ◌^◌, ◌≤◌, ◌<◌, ◌≡◌, refl, ap, ◌∙◌, arith, List, [],
  ◌∷◌, All, true, false, leb, length,
}
use native.Mathlib.Numerals.{add-one}
use mathlib.Core.Path.{ap₂}
use csci5103_lab.Riscv.{pgsize, pg_round_up, phys_stop}
use csci5103_lab.Riscv.Address.{pg_round_up_least}
use csci5103_lab.Machine.{Machine, Outcome, ok, bind_ok}
use csci5103_lab.Kalloc.{
  kfree, freerange_loop, freerange, kinit, superinit, pool_start, nsuperpages,
}
use csci5103_lab.Kalloc.FreeList.{IsPage, IsFree, kfree_lem}
use csci5103_lab.Kalloc.Pool.{stack, IsPool, all_supers, superinit_lem}

-- The pages `p`, `p + 4096`, … (`n` of them) put in front of `ps` one after the other.
pub pages_from : ℕ → ℕ → List ℕ → List ℕ
pages_from p zero ps = ps
pages_from p (suc n) ps = pages_from (p + pgsize) n (p ∷ ps)

length-pages_from : (p n : ℕ) (ps : List ℕ) → length (pages_from p n ps) ≡ n + length ps
unfolding pages_from
length-pages_from p zero ps = omega arith
length-pages_from p (suc n) ps = omega (arith, length-pages_from (p + pgsize) n (p ∷ ps))

below_mono : (p q : ℕ) (ps : List ℕ) → p ≤ q → All (λ x. x < p) ps → All (λ x. x < q) ps
below_mono p q [] h a = tt
below_mono p q (x ∷ xs) h a = (omega arith, below_mono p q xs h a.1)

below-NotIn : (p : ℕ) (ps : List ℕ) → All (λ x. x < p) ps → NotIn p ps
below-NotIn p [] a = tt
below-NotIn p (x ∷ xs) a = (omega arith, below-NotIn p xs a.1)

-- Each page of the range ends at or below `top`.
pages_from-below :
    (top p n : ℕ) (ps : List ℕ)
    → p + n * pgsize ≤ top
    → All (λ x. x + pgsize ≤ top) ps
    → All (λ x. x + pgsize ≤ top) (pages_from p n ps)
unfolding pages_from
pages_from-below top p zero ps h a = a
pages_from-below top p (suc n) ps h a =
    pages_from-below top (p + pgsize) n (p ∷ ps) (omega arith) (omega arith, a)

module _ (kernel_end : ℕ) where
  -- The outcome of freeing a range on top of `ps`.
  abbrev pub Freed : Machine → List ℕ → Outcome (Unit {0}) → Type 0
  Freed s ps r =
      (s' : Machine) × (r ≡ ok tt s')
      × IsFree kernel_end s' ps
      × (s'.superpages ≡ s.superpages)
      × (s'.nfree ≡ s.nfree)

  freerange_loop-Freed :
      (n p pa_end : ℕ) (s : Machine) (ps : List ℕ)
      → IsFree kernel_end s ps
      → s.freelist < 2 ^ 64
      → All (λ x. x < p) ps
      → p % pgsize ≡ 0
      → 0 < p
      → kernel_end ≤ p
      → pa_end ≤ phys_stop
      → p + n * pgsize ≤ pa_end
      → pa_end < p + n * pgsize + pgsize
      → Freed s (pages_from p n ps) (freerange_loop kernel_end (suc n) p pa_end s)
  unfolding freerange_loop pages_from
  freerange_loop-Freed zero p pa_end s ps f small low al pos above top fits last =
      (s, rw stop refl, f, refl, refl)
    where
      stop : leb (p + pgsize) pa_end ≡ false
      stop = ground arith
  freerange_loop-Freed (suc n) p pa_end s ps f small low al pos above top fits last =
      let page : IsPage kernel_end p = record {
        aligned = al;
        above = above;
        below = omega arith;
      } in
      let (s', e, f', same, sp, nf) =
        kfree_lem p ps f page (omega arith) small (below-NotIn p ps low) in
      let (s'', e', f'', sp', nf') =
        freerange_loop-Freed n (p + pgsize) pa_end s' (p ∷ ps) f' (rw (f'.chain.0) (omega arith))
          (omega arith, below_mono p (p + pgsize) ps (omega arith) low) (omega arith) (omega arith)
          (omega arith) top (omega arith) (omega arith) in
      (s'', step s' e ∙ e', f'', sp' ∙ sp, nf' ∙ nf)
    where
      go : leb (p + pgsize) pa_end ≡ true
      go = ground arith

      step :
          (s' : Machine)
          → kfree kernel_end p s ≡ ok tt s'
          → freerange_loop kernel_end (suc (suc n)) p pa_end s
            ≡ freerange_loop kernel_end (suc n) (p + pgsize) pa_end s'
      step s' e = rw go (
          bind_ok (kfree kernel_end p) (λ _. freerange_loop kernel_end (suc n) (p + pgsize) pa_end)
            e)

  -- `freerange` of a range of at least 4096 bytes inside the allocator's bounds, on an empty list,
  -- ends with a list of exactly the whole pages of the range.
  pub freerange_lem :
      (pa_start pa_end : ℕ) (s : Machine)
      → IsFree kernel_end s []
      → 0 < pa_start
      → kernel_end ≤ pa_start
      → pa_start + pgsize ≤ pa_end
      → pa_end ≤ phys_stop
      → Freed s
          (pages_from (pg_round_up pa_start) ((pa_end - pg_round_up pa_start) / pgsize) [])
          (freerange kernel_end pa_start pa_end s)
  unfolding freerange
  freerange_lem pa_start pa_end s f pos above fits top =
      let n = (pa_end - pg_round_up pa_start) / pgsize in
      let (up, al, least) = pg_round_up_least pa_start (pa_end / pgsize) (omega arith) in
      rw (add-one n) (
        freerange_loop-Freed n (pg_round_up pa_start) pa_end s [] f (rw f.chain (omega arith)) tt al
          (omega arith) (omega arith) top (omega arith) (omega arith))

  -- `kinit`, for a kernel that ends below the superpages with no free page yet: it ends with a free
  -- list of all whole pages between the kernel's end and the superpages, each of which ends at or
  -- below the first superpage, and with the full superpage pool.
  pub kinit_lem :
      (s : Machine)
      → length s.superpages ≡ nsuperpages
      → s.freelist ≡ 0
      → 0 < kernel_end
      → kernel_end + pgsize ≤ pool_start
      → let ps =
          pages_from (pg_round_up kernel_end) ((pool_start - pg_round_up kernel_end) / pgsize) [] in
        (s' : Machine) × (kinit kernel_end s ≡ ok tt s')
        × IsFree kernel_end s' ps
        × All (λ x. x + pgsize ≤ pool_start) ps
        × (length ps ≡ (pool_start - pg_round_up kernel_end) / pgsize)
        × IsPool s' (all_supers nsuperpages)
  unfolding kinit
  kinit_lem s size empty pos fits =
      let (pool, same, head) = superinit_lem s size in
      let none_free : IsFree kernel_end (superinit s) [] = record {
        chain = head ∙ empty;
        pages = tt;
        distinct = tt;
      } in
      let n = (pool_start - pg_round_up kernel_end) / pgsize in
      let (s', e, f, sp, nf) =
        freerange_lem kernel_end pool_start (superinit s) none_free pos (omega arith) fits
          (omega arith) in
      let (up, al, least) = pg_round_up_least kernel_end (pool_start / pgsize) (omega arith) in
      (
        s',
        e,
        f,
        pages_from-below pool_start (pg_round_up kernel_end) n [] (omega arith) tt,
        omega (arith, length-pages_from (pg_round_up kernel_end) n []),
        IsPool-same s' pool sp nf,
      )
    where
      IsPool-same :
          (s' : Machine)
          → IsPool (superinit s) (all_supers nsuperpages)
          → s'.superpages ≡ (superinit s).superpages
          → s'.nfree ≡ (superinit s).nfree
          → IsPool s' (all_supers nsuperpages)
      IsPool-same s' v sp nf = record {
        size = ap length sp ∙ v.size;
        bound = omega (arith, v.bound, nf);
        content = ap₂ stack sp nf ∙ v.content;
        supers = v.supers;
        distinct = v.distinct;
      }
