-- ===== src/Kalloc/Tests.antt =====
-- The theorems about the two allocators at concrete states.
use csci5103_lab.Common.{
  ℕ, ◌+◌, ◌-◌, ◌/◌, ◌≡◌, refl, arith, List, [], ◌∷◌, All, length, replicate, set, ◌≤◌,
}
use csci5103_lab.Riscv.{pgsize, pg_round_up}
use csci5103_lab.Memory.{load64, store64}
use csci5103_lab.Machine.{Machine, ok}
use csci5103_lab.Kalloc.{nsuperpages, pool_start, kalloc, kfree, kinit}
use csci5103_lab.Kalloc.FreeList.{IsFree, SameOutside, Allocated, kalloc_lem, kfree_lem}
use csci5103_lab.Kalloc.Pages.{pages_from, kinit_lem}
use csci5103_lab.Kalloc.Pool.{stack, IsPool, all_supers}

abbrev kernel_end : ℕ
kernel_end = 0x80100000

-- Memory as it comes up, with nothing handed to the allocators.
abbrev booting : Machine
booting = record { mem = λ a. 0; freelist = 0; superpages = replicate 60 0; nfree = 0 }

-- Two free pages and one free superpage.
abbrev running : Machine
running = record {
  mem = store64 (λ a. 0) 0x80200000 0x80300000;
  freelist = 0x80200000;
  superpages = set (replicate 60 0) 0 0x80800000;
  nfree = 1;
}

abbrev two_pages : List ℕ
two_pages = 0x80200000 ∷ 0x80300000 ∷ []

running-IsFree : IsFree kernel_end running two_pages
unfolding load64 store64
running-IsFree = record {
  chain = (refl, omega arith, (refl, omega arith, refl));
  pages = (omega arith, (omega arith, tt));
  distinct = ((omega arith, tt), (tt, tt));
}

booting-IsFree : IsFree kernel_end booting []
booting-IsFree = record { chain = refl; pages = tt; distinct = tt }

running-IsPool : IsPool running (0x80800000 ∷ [])
unfolding stack
running-IsPool = record {
  size = refl;
  bound = omega arith;
  content = refl;
  supers = (omega arith, tt);
  distinct = (tt, tt);
}

kalloc_lem_example : Allocated kernel_end running two_pages (kalloc running)
kalloc_lem_example = kalloc_lem two_pages running-IsFree

kfree_lem_example :
    (s' : Machine) × (kfree kernel_end 0x80400000 running ≡ ok tt s')
    × IsFree kernel_end s' (0x80400000 ∷ two_pages)
    × SameOutside 0x80400000 pgsize running.mem s'.mem
    × (s'.superpages ≡ running.superpages)
    × (s'.nfree ≡ 1)
kfree_lem_example =
    kfree_lem 0x80400000 two_pages running-IsFree (omega arith) (omega arith) (omega arith)
      (omega arith, (omega arith, tt))

kinit_lem_example :
    (s' : Machine) × (kinit 0x80123456 booting ≡ ok tt s')
    × IsFree 0x80123456 s'
        (pages_from (pg_round_up 0x80123456) ((pool_start - pg_round_up 0x80123456) / pgsize) [])
    × All
        (λ x. x + pgsize ≤ pool_start)
        (pages_from (pg_round_up 0x80123456) ((pool_start - pg_round_up 0x80123456) / pgsize) [])
    × (length
          (pages_from (pg_round_up 0x80123456) ((pool_start - pg_round_up 0x80123456) / pgsize) [])
        ≡ (pool_start - pg_round_up 0x80123456) / pgsize)
    × IsPool s' (all_supers nsuperpages)
kinit_lem_example = kinit_lem 0x80123456 booting refl refl (omega arith) (omega arith)
