-- ===== src/Vm/Print.antt =====
-- `vmprint` of kernel/vm.c: the lines that it prints, one for each valid entry, as data.
use csci5103_lab.Common.{
  ℕ, zero, suc, ◌+◌, ◌-◌, ◌*◌, ◌^◌, List, [], ◌∷◌, ◌++◌, if◌then◌else◌, bit_or,
}
use csci5103_lab.Riscv.{pte_v, has, pte_leaf, pte_to_pa, px_shift}
use csci5103_lab.Memory.{Memory, load64}

-- The number of leading ".. ", and the three values of a line.
pub record Line : Type 0 where
  pub depth : ℕ
  pub va : ℕ
  pub pte : ℕ
  pub pa : ℕ

-- The loop over the entries from `i` on; `down` is the recursive call for a child table.
unfoldable pub print_loop : (ℕ → ℕ → List Line) → Memory → ℕ → ℕ → ℕ → ℕ → ℕ → List Line
print_loop down m zero pagetable depth va_above i = []
print_loop down m (suc k) pagetable depth va_above i =
    let pte = load64 m (pagetable + 8 * i) in
    let va = bit_or va_above (i * 2 ^ px_shift (2 - depth)) in
    let line : Line = record { depth = depth; va = va; pte = pte; pa = pte_to_pa pte } in
    let child = if pte_leaf pte then [] else down (pte_to_pa pte) va in
    let rest = print_loop down m k pagetable depth va_above (i + 1) in
    if has pte pte_v then line ∷ (child ++ rest) else rest

-- The fuel is the number of levels that may be entered.
unfoldable pub vmprint_recurse : ℕ → Memory → ℕ → ℕ → ℕ → List Line
vmprint_recurse zero m pagetable depth va_above = []
vmprint_recurse (suc k) m pagetable depth va_above =
    print_loop (λ child va. vmprint_recurse k m child (depth + 1) va) m 512 pagetable depth va_above
      0

unfoldable pub vmprint : Memory → ℕ → List Line
vmprint m pagetable = vmprint_recurse 3 m pagetable 0 0
