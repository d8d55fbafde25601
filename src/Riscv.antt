-- ===== src/Riscv.antt =====
-- The constants and macros of kernel/riscv.h and kernel/memlayout.h that the memory code uses, and
-- 64-bit arithmetic. `x & ~(2^k - 1)` clears the low bits, `x / 2 ^ k * 2 ^ k`.
pub mod Address
pub mod Pte
mod Tests
use csci5103_lab.Common.{
  ℕ, zero, suc, ◌+◌, ◌-◌, ◌*◌, ◌/◌, ◌%◌, ◌^◌, Bool, bit_and, bit_or, ◌==◌, ltb, leb, not, ◌||◌,
  if◌then◌else◌,
}

-- `uint64` addition and subtraction
abbrev pub add64 : ℕ → ℕ → ℕ
add64 a b = (a + b) % 2 ^ 64

abbrev pub sub64 : ℕ → ℕ → ℕ
sub64 a b = (a + 2 ^ 64 - b) % 2 ^ 64

-- A `uint64` assigned to an `int` and passed on as a `uint64` again: the low 32 bits, sign-extended.
abbrev pub int_to_u64 : ℕ → ℕ
int_to_u64 x = if ltb (x % 2 ^ 32) (2 ^ 31) then x % 2 ^ 32 else x % 2 ^ 32 + (2 ^ 64 - 2 ^ 32)

abbrev pub pgsize : ℕ
pgsize = 4096

abbrev pub superpgsize : ℕ
superpgsize = 2 * 2 ^ 20

unfoldable pub pg_round_up : ℕ → ℕ
pg_round_up sz = add64 sz (pgsize - 1) / pgsize * pgsize

unfoldable pub pg_round_down : ℕ → ℕ
pg_round_down a = a / pgsize * pgsize

unfoldable pub super_pg_round_up : ℕ → ℕ
super_pg_round_up sz = add64 sz (superpgsize - 1) / superpgsize * superpgsize

-- the flag bits of a page table entry
abbrev pub pte_v : ℕ
pte_v = 1

abbrev pub pte_r : ℕ
pte_r = 2

abbrev pub pte_w : ℕ
pte_w = 4

abbrev pub pte_x : ℕ
pte_x = 8

abbrev pub pte_u : ℕ
pte_u = 16

-- `pte & flag` as a test
unfoldable pub has : ℕ → ℕ → Bool
has pte flag = not (bit_and pte flag == 0)

unfoldable pub pte_leaf : ℕ → Bool
unfolding has
pte_leaf pte = has pte pte_r || has pte pte_w || has pte pte_x

unfoldable pub pa_to_pte : ℕ → ℕ
pa_to_pte pa = pa / 2 ^ 12 * 2 ^ 10 % 2 ^ 64

unfoldable pub pte_to_pa : ℕ → ℕ
pte_to_pa pte = pte / 2 ^ 10 * 2 ^ 12 % 2 ^ 64

unfoldable pub pte_flags : ℕ → ℕ
pte_flags pte = pte % 2 ^ 10

-- PXSHIFT and PX
unfoldable pub px_shift : ℕ → ℕ
px_shift level = 12 + 9 * level

unfoldable pub px : ℕ → ℕ → ℕ
unfolding px_shift
px level va = va / 2 ^ px_shift level % 2 ^ 9

abbrev pub max_va : ℕ
max_va = 2 ^ 38

-- kernel/memlayout.h
abbrev pub kern_base : ℕ
kern_base = 0x80000000

abbrev pub phys_stop : ℕ
phys_stop = kern_base + 128 * 1024 * 1024

abbrev pub trampoline_va : ℕ
trampoline_va = max_va - pgsize

abbrev pub trapframe_va : ℕ
trapframe_va = trampoline_va - pgsize

abbrev pub kstack : ℕ → ℕ
kstack p = trampoline_va - (p + 1) * 2 * pgsize
