-- ===== src/Vm/Rounding.antt =====
-- The arithmetic of `uvmdealloc` on sizes, and what `uvmunmap` and `kfree` do where a superpage is taken for a page.
use csci5103_lab.Common.{
  ℕ, ◌+◌, ◌-◌, ◌*◌, ◌/◌, ◌%◌, ◌^◌, ◌≤◌, ◌<◌, ◌≡◌, ◌≢◌, arith, Bool, true, false, ◌==◌,
}
use csci5103_lab.Riscv.{
  pgsize, superpgsize, pte_v, pte_r, has, pte_flags, max_va, pg_round_up, int_to_u64,
}
use csci5103_lab.Riscv.Pte.{has-r}
use csci5103_lab.Memory.{store64, fill}
use csci5103_lab.Machine.{Machine, ok}
use csci5103_lab.Kalloc.{kfree, pool_start, is_bad_page}
use csci5103_lab.Kalloc.Pool.{IsSuper}
use csci5103_lab.Vm.Walk.{super_entry}
use csci5103_lab.Vm.Map.{unmap_page, unmap_at}

-- An address that is not a multiple of 2 MiB is unmapped as a page.
pub unmap_at-page :
    (kernel_end table a : ℕ) (do_free : Bool) (s : Machine)
    → a % superpgsize ≢ 0
    → unmap_at kernel_end table a do_free s ≡ unmap_page kernel_end table a do_free s
unfolding unmap_at super_entry
unmap_at-page kernel_end table a do_free s h = rw odd
  where
    odd : (a % superpgsize == 0) ≡ false
    odd = ground arith

pub flags_ne : (pte : ℕ) → has pte pte_r ≡ true → (pte_flags pte == pte_v) ≡ false
unfolding pte_flags
flags_ne pte h = ground (arith, has-r pte)

pub round_up_page : (x : ℕ) → x % pgsize ≡ 0 → x < 2 ^ 64 - pgsize → pg_round_up x ≡ x
unfolding pg_round_up
round_up_page x al small = omega arith

pub round_up_from :
    (va x : ℕ)
    → va % pgsize ≡ 0
    → va ≤ x
    → x ≤ max_va
    → pg_round_up x ≡ va + (x - va + (pgsize - 1)) / pgsize * pgsize
unfolding pg_round_up
round_up_from va x al low top = omega (arith, al, low, top)

pub round_up_top : (x : ℕ) → x ≤ max_va → pg_round_up x ≤ max_va
unfolding pg_round_up
round_up_top x top = omega (arith, top)

pub round_up_above : (x : ℕ) → x ≤ max_va → x ≤ pg_round_up x
unfolding pg_round_up
round_up_above x top = omega (arith, top)

pub int_to_u64_small : (n : ℕ) → n < 2 ^ 31 → int_to_u64 n ≡ n
int_to_u64_small n h = ground arith

pub kfree-super :
    (kernel_end pa : ℕ) (s : Machine)
    → kernel_end ≤ pool_start
    → IsSuper pa
    → kfree kernel_end pa s
      ≡ ok tt (record s { mem = store64 (fill s.mem pa 1 pgsize) pa s.freelist; freelist = pa })
unfolding kfree
kfree-super kernel_end pa s h sup = rw good
  where
    good : is_bad_page kernel_end pa ≡ false
    good = ground arith
