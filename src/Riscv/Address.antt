-- ===== src/Riscv/Address.antt =====
-- Rounding to pages, and a virtual address as its table indices and offset.
use csci5103_lab.Common.{ℕ, ◌+◌, ◌-◌, ◌*◌, ◌/◌, ◌%◌, ◌^◌, ◌≤◌, ◌<◌, ◌≡◌, arith}
use csci5103_lab.Riscv.{pgsize, superpgsize, pg_round_up, pg_round_down, px, max_va}

-- PGROUNDUP is the least multiple of the page size that is not below its argument, for every size
-- whose sum with 4095 does not wrap.
pub pg_round_up_least :
    (sz n : ℕ)
    → sz < 2 ^ 64 - pgsize
    → (sz ≤ pg_round_up sz)
      × (pg_round_up sz % pgsize ≡ 0)
      × (sz ≤ n * pgsize → pg_round_up sz ≤ n * pgsize)
unfolding pg_round_up
pg_round_up_least sz n h = omega arith

-- PGROUNDDOWN is the start of the page that holds the address.
pub pg_round_down_page :
    (a : ℕ)
    → (pg_round_down a ≤ a)
      × (a < pg_round_down a + pgsize)
      × (pg_round_down a % pgsize ≡ 0)
      × (a ≡ pg_round_down a + a % pgsize)
unfolding pg_round_down
pg_round_down_page a = omega arith

-- A user address below MAXVA is its three table indices and its offset within the page.
pub px_split :
    (va : ℕ)
    → va < max_va
    → va ≡ px 2 va * 2 ^ 30 + px 1 va * 2 ^ 21 + px 0 va * 2 ^ 12 + va % pgsize
unfolding px
px_split va h = omega arith

-- Two addresses below MAXVA with the same three indices lie in the same page, and conversely.
pub px_injective :
    (va vb : ℕ)
    → va < max_va
    → vb < max_va
    → px 2 va ≡ px 2 vb
    → px 1 va ≡ px 1 vb
    → px 0 va ≡ px 0 vb
    → pg_round_down va ≡ pg_round_down vb
unfolding px pg_round_down
px_injective va vb ha hb e2 e1 e0 = omega arith

pub px-lt : (level va : ℕ) → px level va < 512
unfolding px
px-lt level va = omega arith

-- The pages of one 2 MiB region share the level 2 and level 1 indices.
pub px_super :
    (va off : ℕ)
    → va % superpgsize ≡ 0
    → off < superpgsize
    → (px 2 (va + off) ≡ px 2 va) × (px 1 (va + off) ≡ px 1 va) × (px 0 (va + off) ≡ off / pgsize)
unfolding px
px_super va off h k = omega arith
