-- ===== src/Vm/Unmap.antt =====
-- `uvmunmap` and `uvmdealloc` on superpages: the whole of one, and a part of one.
use csci5103_lab.Common.{
  NotIn, ℕ, suc, ◌+◌, ◌*◌, ◌%◌, ◌≤◌, ◌<◌, ◌≡◌, ◌≢◌, inl, sym, ◌∙◌, arith, Bool, true, false, ◌==◌,
  none, ltb, List, ◌∷◌,
}
use mathlib.Core.Path.{subst}
use csci5103_lab.Riscv.{pgsize, superpgsize, pte_r, has, pte_to_pa, max_va, add64}
use csci5103_lab.Riscv.Address.{px-lt, px_super}
use csci5103_lab.Riscv.Pte.{has-v}
use csci5103_lab.Memory.{Memory, load64, store64}
use csci5103_lab.Memory.Word.{load64-store64, load64_cong}
use csci5103_lab.Machine.{Machine, Panic, ok, panic, bind_ok, bind_panic}
use csci5103_lab.Kalloc.{superfree, pool_start, nsuperpages}
use csci5103_lab.Kalloc.FreeList.{SameOutside}
use csci5103_lab.Kalloc.Pool.{IsPool, IsSuper, superfree_lem}
use csci5103_lab.Vm.Walk.{slot_of, superwalk, super_entry}
use csci5103_lab.Vm.Map.{unmap_super, unmap_at, uvmunmap_loop, uvmunmap}
use csci5103_lab.Vm.Sv39.{translate, translate_from}
use csci5103_lab.Vm.Lookup.{IsTable, IsLeaf, translate_start, translate_from-table}
use csci5103_lab.Vm.Mapping.{IsTable-store, IsTable-cong}
use csci5103_lab.Vm.Superpage.{superwalk-table}

-- A superpage that is mapped at `va` through the level 1 table `p1`; the tables lie below the pool.
pub record IsMapped (m : Memory) (table va p1 pa : ℕ) : Type 0 where
  pub in_space : va < max_va
  pub aligned : va % superpgsize ≡ 0
  pub level2 : IsTable m (slot_of table 2 va) p1
  pub leaf : IsLeaf m (slot_of p1 1 va) pa
  pub readable : has (load64 m (slot_of p1 1 va)) pte_r ≡ true
  pub super : IsSuper pa
  pub tables : (table % pgsize ≡ 0) × (p1 % pgsize ≡ 0)
  pub below : (table + pgsize ≤ pool_start) × (p1 + pgsize ≤ pool_start)
  pub proper : (table ≢ p1) × (0 < p1)

module _ {m : Memory} {table va p1 pa : ℕ} (is : IsMapped m table va p1 pa) where
  -- Writes into the superpage and a cleared entry leave the level 2 entry and unmap the superpage.
  pub cleared :
      (m' : Memory) (n : ℕ)
      → SameOutside pa n m m'
      → IsTable (store64 m' (slot_of p1 1 va) 0) (slot_of table 2 va) p1
        × (load64 (store64 m' (slot_of p1 1 va) 0) (slot_of p1 1 va) ≡ 0)
  cleared m' n same =
      let kept : load64 m' (slot_of table 2 va) ≡ load64 m (slot_of table 2 va) =
        load64_cong m m' (slot_of table 2 va) (λ b h k. same b (inl (outside b h k))) in
      (
        IsTable-store table p1 2 1 va va 0 (is.tables.0) (is.tables.1) (is.proper.0)
            (IsTable-cong (slot_of table 2 va) kept is.level2),
        load64-store64 m' (slot_of p1 1 va) 0 (omega arith),
      )
    where
      outside : (b : ℕ) → slot_of table 2 va ≤ b → b < slot_of table 2 va + 8 → b < pa
      outside b h k = omega (arith, is.super.above, is.below, px-lt 2 va)

pub translate-cleared :
    (m : Memory) (table va off : ℕ) {p1 : ℕ}
    → va < max_va
    → va % superpgsize ≡ 0
    → off < superpgsize
    → IsTable m (slot_of table 2 va) p1
    → load64 m (slot_of p1 1 va) ≡ 0
    → translate m table (va + off) ≡ none
unfolding translate_from
translate-cleared m table va off {p1} h al k t z =
    let (same2, same1, same0) = px_super va off al k in
    translate_start m table (va + off) (omega arith)
    ∙ translate_from-table table (va + off) 1
        (subst (λ (x : ℕ). IsTable m (table + 8 * x) p1) (sym same2) t)
    ∙ rw (same1, z, has-v 0)

super_entry-mapped :
    {table va p1 pa : ℕ} (s : Machine)
    → IsMapped s.mem table va p1 pa
    → super_entry table va s ≡ ok (slot_of p1 1 va) s
unfolding super_entry
super_entry-mapped {table} {va} {p1} s is = rw (aligned is.aligned) (
    bind_ok (superwalk table va false) _ (superwalk-table table va false s is.in_space is.level2)
    ∙ rw (not_null is.proper.1, is.leaf.valid, is.readable))
  where
    aligned : va % superpgsize ≡ 0 → (va % superpgsize == 0) ≡ true
    aligned e = ground arith

    not_null : 0 < p1 → (slot_of p1 1 va == 0) ≡ false
    not_null h = ground arith

-- One round of `uvmunmap`, a round that panics, and the end.
module _ (kernel_end : ℕ) where
  pub uvmunmap_start :
      (table va n : ℕ) (do_free : Bool) (s : Machine)
      → va % pgsize ≡ 0
      → uvmunmap kernel_end table va n do_free s
        ≡ uvmunmap_loop kernel_end (suc n) table va (add64 va (n * pgsize)) do_free s
  unfolding uvmunmap
  uvmunmap_start table va n do_free s h = rw aligned
    where
      aligned : (va % pgsize == 0) ≡ true
      aligned = ground arith

  pub uvmunmap_loop-step :
      (k table a end_va sz : ℕ) (do_free : Bool) (s s' : Machine)
      → ltb a end_va ≡ true
      → unmap_at kernel_end table a do_free s ≡ ok sz s'
      → uvmunmap_loop kernel_end (suc k) table a end_va do_free s
        ≡ uvmunmap_loop kernel_end k table (add64 a sz) end_va do_free s'
  unfolding uvmunmap_loop
  uvmunmap_loop-step k table a end_va sz do_free s s' h e =
      rw h (bind_ok (unmap_at kernel_end table a do_free) _ e)

  pub uvmunmap_loop-panic :
      (k table a end_va : ℕ) (do_free : Bool) (s : Machine) (p : Panic)
      → ltb a end_va ≡ true
      → unmap_at kernel_end table a do_free s ≡ panic p
      → uvmunmap_loop kernel_end (suc k) table a end_va do_free s ≡ panic p
  unfolding uvmunmap_loop
  uvmunmap_loop-panic k table a end_va do_free s p h e =
      rw h (bind_panic (unmap_at kernel_end table a do_free) _ e)

  pub uvmunmap_loop-end :
      (k table a end_va : ℕ) (do_free : Bool) (s : Machine)
      → ltb a end_va ≡ false
      → uvmunmap_loop kernel_end (suc k) table a end_va do_free s ≡ ok tt s
  unfolding uvmunmap_loop
  uvmunmap_loop-end k table a end_va do_free s h = rw h

module _ (kernel_end : ℕ) {table va p1 pa : ℕ} (ps : List ℕ) (s : Machine)
    (is : IsMapped s.mem table va p1 pa) (pool : IsPool s ps) (out : NotIn pa ps)
    (room : s.nfree < nsuperpages) where
  unmap_at-super :
      (s' : Machine) × (unmap_at kernel_end table va true s ≡ ok superpgsize s')
      × IsPool s' (pa ∷ ps)
      × IsTable s'.mem (slot_of table 2 va) p1
      × (load64 s'.mem (slot_of p1 1 va) ≡ 0)
  unfolding unmap_at unmap_super
  unmap_at-super =
      let (s1, e, pool1, same, fl) = superfree_lem pa ps pool is.super out room in
      let (kept, gone) = cleared is s1.mem superpgsize same in
      let page : pte_to_pa (load64 s.mem (slot_of p1 1 va)) ≡ pa = is.leaf.page in
      (
        record s1 { mem = store64 s1.mem (slot_of p1 1 va) 0 },
        bind_ok (super_entry table va) _ (super_entry-mapped s is)
            ∙ rw (not_null is.proper.1, page) (bind_ok (superfree pa) _ e),
        record {
          size = pool1.size;
          bound = pool1.bound;
          content = pool1.content;
          supers = pool1.supers;
          distinct = pool1.distinct;
        },
        kept,
        gone,
      )
    where
      not_null : 0 < p1 → (slot_of p1 1 va == 0) ≡ false
      not_null h = ground arith

  -- `uvmunmap` of the 512 pages of a mapped superpage, with the memory to be freed, ends after one
  -- round: the superpage is on top of the pool again, and no address of the 2 MiB is mapped.
  pub uvmunmap-super :
      (s' : Machine) × (uvmunmap kernel_end table va 512 true s ≡ ok tt s')
      × IsPool s' (pa ∷ ps)
      × ((off : ℕ) → off < superpgsize → translate s'.mem table (va + off) ≡ none)
  uvmunmap-super =
      let (s', e, pool', t, z) = unmap_at-super in
      (
        s',
        uvmunmap_start kernel_end table va 512 true s (is_page is.aligned)
            ∙ uvmunmap_loop-step kernel_end 512 table va end_va superpgsize true s s'
                (first is.in_space) e
            ∙ uvmunmap_loop-end kernel_end 511 table (add64 va superpgsize) end_va true s'
                (last is.in_space),
        pool',
        λ off k. translate-cleared s'.mem table va off is.in_space is.aligned k t z,
      )
    where
      end_va : ℕ
      end_va = add64 va (512 * pgsize)

      is_page : va % superpgsize ≡ 0 → va % pgsize ≡ 0
      is_page h = omega arith

      first : va < max_va → ltb va end_va ≡ true
      first h = ground arith

      last : va < max_va → ltb (add64 va superpgsize) end_va ≡ false
      last h = ground arith
