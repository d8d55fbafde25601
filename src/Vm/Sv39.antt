-- ===== src/Vm/Sv39.antt =====
-- Address translation as the RISC-V privileged architecture's Sv39 scheme defines it, for user
-- accesses: the description that the page-table code of kernel/vm.c is compared with. It takes the
-- tables' addresses and a leaf's level into account, and nothing of kernel/vm.c.
use csci5103_lab.Common.{
  ℕ, zero, suc, ◌+◌, ◌*◌, ◌%◌, ◌^◌, ◌&&◌, ◌||◌, ◌==◌, Bool, not, leb, Option, none, some,
  if◌then◌else◌,
}
use csci5103_lab.Riscv.{pte_v, pte_r, pte_w, pte_u, has, pte_leaf, pte_to_pa, px, px_shift, max_va}
use csci5103_lab.Memory.{Memory, load64}

-- A leaf entry at a level maps its page and the offset below the level's index.
unfoldable pub leaf_address : ℕ → ℕ → ℕ → Option ℕ
leaf_address level pte va =
    if has pte pte_u then some (pte_to_pa pte + va % 2 ^ px_shift level) else none

-- A page that may be written but not read is reserved; a superpage starts at a multiple of its size.
abbrev pub is_reserved : ℕ → Bool
is_reserved pte = has pte pte_w && not (has pte pte_r)

abbrev pub is_misaligned : ℕ → ℕ → Bool
is_misaligned level pte = not (pte_to_pa pte % 2 ^ px_shift level == 0)

unfoldable pub translate_from : ℕ → Memory → ℕ → ℕ → Option ℕ
translate_from zero m table va =
    let pte = load64 m (table + 8 * px 0 va) in
    if has pte pte_v && not (is_reserved pte) && pte_leaf pte then leaf_address 0 pte va else none
translate_from (suc l) m table va =
    let pte = load64 m (table + 8 * px (suc l) va) in
    let below = translate_from l m (pte_to_pa pte) va in
    if not (has pte pte_v) || is_reserved pte
    then none
    else if pte_leaf pte
    then if is_misaligned (suc l) pte then none else leaf_address (suc l) pte va
    else below

-- The physical address that a user access to `va` reaches, if the access does not fault.
unfoldable pub translate : Memory → ℕ → ℕ → Option ℕ
translate m table va = if leb max_va va then none else translate_from 2 m table va
