-- ===== src/Vm/Walk.antt =====
-- The descents of kernel/vm.c through a page table: `walk`, `superwalk`, `walkaddr`, `pgpte`. A table
-- is the address of its page, a `pte_t *` the address of the entry, and a null pointer is 0.
use csci5103_lab.Common.{
  ℕ, zero, suc, ◌+◌, ◌*◌, ◌%◌, Bool, false, ◌&&◌, not, ◌==◌, leb, if◌then◌else◌, bit_or,
}
use csci5103_lab.Riscv.{
  pgsize, superpgsize, pte_v, pte_r, pte_u, has, pte_leaf, pa_to_pte, pte_to_pa, px, max_va,
}
use csci5103_lab.Machine.{Panic, M, pure, ◌>>=◌, ◌>>◌, panic_if, read_pte, write_pte, memset}
use csci5103_lab.Kalloc.{kalloc}

-- `&pagetable[PX(level, va)]`
abbrev pub slot_of : ℕ → ℕ → ℕ → ℕ
slot_of pagetable level va = pagetable + 8 * px level va

-- The branch on an entry that is not valid: 0, or a fresh zeroed table that the entry now names.
unfoldable pub new_table : ℕ → Bool → (ℕ → M ℕ) → M ℕ
new_table slot alloc next = if not alloc then pure 0 else do
  p ← kalloc
  if p == 0
      then pure 0
      else do memset p 0 pgsize; write_pte slot (bit_or (pa_to_pte p) pte_v); next p

-- The loop of `walk` from `level` down to 1, and its last line.
unfoldable pub walk_from : ℕ → ℕ → ℕ → Bool → M ℕ
walk_from zero pagetable va alloc = pure (slot_of pagetable 0 va)
walk_from (suc l) pagetable va alloc =
    let slot = slot_of pagetable (suc l) va in
    let below = λ (p : ℕ). walk_from l p va alloc in
    do
      pte ← read_pte slot
      if has pte pte_v
          then (if pte_leaf pte then pure slot else below (pte_to_pa pte))
          else new_table slot alloc below

unfoldable pub walk : ℕ → ℕ → Bool → M ℕ
walk pagetable va alloc = do panic_if (leb max_va va) Panic.walk; walk_from 2 pagetable va alloc

unfoldable pub superwalk : ℕ → ℕ → Bool → M ℕ
superwalk pagetable va alloc = do
  panic_if (leb max_va va) Panic.superwalk
  pte ← read_pte (slot_of pagetable 2 va)
  if has pte pte_v
      then pure (slot_of (pte_to_pa pte) 1 va)
      else new_table (slot_of pagetable 2 va) alloc (λ p. pure (slot_of p 1 va))

unfoldable pub walkaddr : ℕ → ℕ → M ℕ
walkaddr pagetable va = if leb max_va va then pure 0 else do
  slot ← walk pagetable va false
  if slot == 0 then pure 0 else do
    pte ← read_pte slot
    if not (has pte pte_v)
        then pure 0
        else if not (has pte pte_u)
        then pure 0
        else pure (pte_to_pa pte)

unfoldable pub pgpte : ℕ → ℕ → M ℕ
pgpte pagetable va = walk pagetable va false

-- The test that `uvmunmap` and `uvmcopy` start each round with: the superpage entry for an aligned
-- address, or 0 if the address is not aligned or no valid readable entry stands there.
unfoldable pub super_entry : ℕ → ℕ → M ℕ
super_entry pagetable a = if not (a % superpgsize == 0) then pure 0 else do
  slot ← superwalk pagetable a false
  if slot == 0
      then pure 0
      else do pte ← read_pte slot; if has pte pte_v && has pte pte_r then pure slot else pure 0
