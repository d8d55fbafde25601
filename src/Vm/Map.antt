-- ===== src/Vm/Map.antt =====
-- Adding and removing mappings: `mappages`, `supermappages`, `kvmmap`, `uvmunmap` of kernel/vm.c.
use csci5103_lab.Common.{
  ℕ, zero, suc, ◌*◌, ◌/◌, ◌%◌, Bool, true, false, not, ◌==◌, ltb, if◌then◌else◌,
}
use csci5103_lab.Riscv.{add64, sub64, pgsize, superpgsize, pte_v, has, pte_to_pa, pte_flags}
use csci5103_lab.Riscv.Pte.{make_pte}
use csci5103_lab.Machine.{Panic, hang, M, pure, ◌>>=◌, ◌>>◌, panic_if, read_pte, write_pte}
use csci5103_lab.Kalloc.{kfree, superfree}
use csci5103_lab.Vm.Walk.{walk, superwalk, super_entry}

-- The `int` that the mapping functions return: 0 or -1.
pub data Status : Type 0 where
  success failure : Status

-- One round of `mappages` goes on with `next`, which it leaves out after the last page.
unfoldable pub map_page : ℕ → ℕ → ℕ → ℕ → Bool → M Status → M Status
map_page pagetable a pa perm is_last next = do
  slot ← walk pagetable a true
  if slot == 0 then pure failure else do
    pte ← read_pte slot
    panic_if (has pte pte_v) Panic.mappages_remap
    write_pte slot (make_pte pa perm)
    if is_last then pure success else next

unfoldable pub mappages_loop : ℕ → ℕ → ℕ → ℕ → ℕ → ℕ → M Status
mappages_loop zero pagetable a last pa perm = λ s. hang
mappages_loop (suc k) pagetable a last pa perm =
    let next = mappages_loop k pagetable (add64 a pgsize) last (add64 pa pgsize) perm in
    map_page pagetable a pa perm (a == last) next

-- As many rounds as the range has pages.
unfoldable pub mappages : ℕ → ℕ → ℕ → ℕ → ℕ → M Status
mappages pagetable va size pa perm = do
  panic_if (not (va % pgsize == 0)) Panic.mappages_va
  panic_if (not (size % pgsize == 0)) Panic.mappages_size_alignment
  panic_if (size == 0) Panic.mappages_size
  mappages_loop (size / pgsize) pagetable va (sub64 (add64 va size) pgsize) pa perm

unfoldable pub supermappages : ℕ → ℕ → ℕ → ℕ → M Status
supermappages pagetable va pa perm = do
  panic_if (not (va % superpgsize == 0)) Panic.supermappages_va
  slot ← superwalk pagetable va true
  if slot == 0 then pure failure else do
    pte ← read_pte slot
    panic_if (has pte pte_v) Panic.supermappages_remap
    write_pte slot (make_pte pa perm)
    pure success

module _ (kernel_end : ℕ) where
  -- The body of the loop of `uvmunmap` at `a`; it returns `sz`.
  unfoldable pub unmap_super : ℕ → Bool → M ℕ
  unmap_super slot do_free = do
    pte ← read_pte slot
    if do_free then superfree (pte_to_pa pte) else pure tt
    write_pte slot 0
    pure superpgsize

  unfoldable pub unmap_page : ℕ → ℕ → Bool → M ℕ
  unmap_page pagetable a do_free = do
    slot ← walk pagetable a false
    panic_if (slot == 0) Panic.uvmunmap_walk
    pte ← read_pte slot
    panic_if (not (has pte pte_v)) Panic.uvmunmap_not_mapped
    panic_if (pte_flags pte == pte_v) Panic.uvmunmap_not_leaf
    if do_free then kfree kernel_end (pte_to_pa pte) else pure tt
    write_pte slot 0
    pure pgsize

  unfoldable pub unmap_at : ℕ → ℕ → Bool → M ℕ
  unmap_at pagetable a do_free = do
    slot ← super_entry pagetable a
    if slot == 0 then unmap_page pagetable a do_free else unmap_super slot do_free

  unfoldable pub uvmunmap_loop : ℕ → ℕ → ℕ → ℕ → Bool → M (Unit {0})
  uvmunmap_loop zero pagetable a end_va do_free = λ s. hang
  uvmunmap_loop (suc k) pagetable a end_va do_free =
      let rest = λ (sz : ℕ). uvmunmap_loop k pagetable (add64 a sz) end_va do_free in
      if ltb a end_va then (unmap_at pagetable a do_free >>= rest) else pure tt

  -- A round for each page, and one for the last test.
  unfoldable pub uvmunmap : ℕ → ℕ → ℕ → Bool → M (Unit {0})
  uvmunmap pagetable va npages do_free = do
    panic_if (not (va % pgsize == 0)) Panic.uvmunmap_va
    uvmunmap_loop (suc npages) pagetable va (add64 va (npages * pgsize)) do_free
