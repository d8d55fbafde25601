-- ===== src/Vm/Tests.antt =====
-- The theorems about page tables at concrete tables: a root at 0x80400000, a level 1 table behind
-- it and a level 0 table behind that, and one page or one superpage mapped.
use csci5103_lab.Common.{
  ℕ, some, ◌≤◌, ◌-◌, ◌+◌, ◌*◌, ◌<◌, ◌≡◌, refl, arith, true, false, [], ◌∷◌, none, replicate, set,
  ◌/◌,
}
use csci5103_lab.Riscv.{
  pg_round_up, pgsize, superpgsize, pte_v, has, pte_leaf, pte_to_pa, px, px_shift,
}
use csci5103_lab.Memory.{Memory, load64, store64}
use csci5103_lab.Machine.{Machine, Panic, ok, panic}
use csci5103_lab.Kalloc.FreeList.{IsFree}
use csci5103_lab.Kalloc.Pool.{IsPool, stack}
use csci5103_lab.Vm.Walk.{slot_of}
use csci5103_lab.Vm.Map.{success, mappages, supermappages, uvmunmap}
use csci5103_lab.Vm.User.{uvmdealloc}
use csci5103_lab.Vm.Transfer.{copyin, copyout}
use csci5103_lab.Vm.Sv39.{translate}
use csci5103_lab.Vm.Lookup.{IsTable}
use csci5103_lab.Vm.Mapping.{Maps, IsUserPerm, mappages-Maps}
use csci5103_lab.Vm.Superpage.{supermappages-Maps}
use csci5103_lab.Vm.Unmap.{IsMapped, uvmunmap-super}
use csci5103_lab.Vm.Shrink.{uvmdealloc-part, uvmdealloc-last}
use csci5103_lab.Vm.Access.{copied}
use csci5103_lab.Vm.Copying.{IsUserPage, IsUserSuper, copy-page, copy-super}

abbrev root : ℕ
root = 0x80400000

abbrev middle : ℕ
middle = 0x80401000

abbrev bottom : ℕ
bottom = 0x80402000

abbrev frame : ℕ
frame = 0x80403000

-- The last superpage, which is the first that `superinit` puts into the pool.
abbrev big_frame : ℕ
big_frame = 0x87e00000

-- The user address that is mapped.
abbrev page_va : ℕ
page_va = 0x400000

-- Read, write and user.
abbrev rwu : ℕ
rwu = 22

abbrev no_memory : Memory
no_memory a = 0

abbrev rooted : Memory
rooted = store64 no_memory (root + 8 * 0) (middle / 4096 * 1024 + 1)

abbrev tables : Memory
tables = store64 rooted (middle + 8 * 2) (bottom / 4096 * 1024 + 1)

abbrev with_page : Memory
with_page = store64 tables (bottom + 8 * 0) (frame / 4096 * 1024 + 23)

abbrev with_super : Memory
with_super = store64 rooted (middle + 8 * 2) (big_frame / 4096 * 1024 + 23)

-- A pool that holds one other superpage, and one free page.
abbrev machine_of : Memory → Machine
machine_of m = record {
  mem = m;
  freelist = 0x80500000;
  superpages = set (replicate 60 0) 0 0x80800000;
  nfree = 1;
}

level2_of_tables : IsTable tables (slot_of root 2 page_va) middle
unfolding has pte_leaf pte_to_pa px px_shift load64 store64
level2_of_tables = record { valid = refl; inner = refl; next = refl }

level1_of_tables : IsTable tables (slot_of middle 1 page_va) bottom
unfolding has pte_leaf pte_to_pa px px_shift load64 store64
level1_of_tables = record { valid = refl; inner = refl; next = refl }

level2_of_rooted : IsTable rooted (slot_of root 2 page_va) middle
unfolding has pte_leaf pte_to_pa px px_shift load64 store64
level2_of_rooted = record { valid = refl; inner = refl; next = refl }

rwu-IsUserPerm : IsUserPerm rwu
unfolding has
rwu-IsUserPerm = record { fits = omega arith; readable = refl; user = refl }

bottom_free : has (load64 tables (slot_of bottom 0 page_va)) pte_v ≡ false
unfolding has px px_shift load64 store64
bottom_free = refl

middle_free : has (load64 rooted (slot_of middle 1 page_va)) pte_v ≡ false
unfolding has px px_shift load64 store64
middle_free = refl

root_free : has (load64 no_memory (slot_of root 2 page_va)) pte_v ≡ false
unfolding has px px_shift load64
root_free = refl

user_page : IsUserPage with_page root page_va middle bottom frame
unfolding has pte_leaf pte_to_pa px px_shift load64 store64
user_page = record {
  in_space = omega arith;
  aligned = refl;
  path = record {
    level2 = record { valid = refl; inner = refl; next = refl };
    level1 = record { valid = refl; inner = refl; next = refl };
  };
  leaf = record { valid = refl; leaf = refl; proper = refl; page = refl };
  user = refl;
  writable = refl;
  proper = omega arith;
}

user_super : IsUserSuper with_super root page_va middle big_frame
unfolding has pte_leaf pte_to_pa px px_shift load64 store64
user_super = record {
  in_space = omega arith;
  aligned = refl;
  level2 = record { valid = refl; inner = refl; next = refl };
  leaf = record { valid = refl; leaf = refl; proper = refl; page = refl };
  user = refl;
  writable = refl;
  whole = refl;
  proper = omega arith;
}

IsMapped-super : IsMapped with_super root page_va middle big_frame
unfolding has pte_leaf pte_to_pa px px_shift load64 store64
IsMapped-super = record {
  in_space = omega arith;
  aligned = refl;
  level2 = record { valid = refl; inner = refl; next = refl };
  leaf = record { valid = refl; leaf = refl; proper = refl; page = refl };
  readable = refl;
  super = omega arith;
  tables = omega arith;
  below = omega arith;
  proper = omega arith;
}

one_super : IsPool (machine_of with_super) (0x80800000 ∷ [])
unfolding stack
one_super = record {
  size = refl;
  bound = omega arith;
  content = refl;
  supers = (omega arith, tt);
  distinct = (tt, tt);
}

one_page : IsFree 0x80100000 (machine_of no_memory) (0x80500000 ∷ [])
unfolding load64
one_page = record {
  chain = (refl, omega arith, refl);
  pages = (omega arith, tt);
  distinct = (tt, tt);
}

copy-page_example :
    Maps with_page root page_va frame pgsize
    × (copyin root 0x80404000 (page_va + 100) 8 (machine_of with_page)
        ≡ ok success (copied (machine_of with_page) 0x80404000 (frame + 100) 8))
    × (copyout root (page_va + 100) 0x80404000 8 (machine_of with_page)
        ≡ ok success (copied (machine_of with_page) (frame + 100) 0x80404000 8))
copy-page_example =
    copy-page root page_va 100 8 (machine_of with_page) user_page (omega arith) (omega arith)
      (omega arith) 0x80404000

-- The user address 3 * 4096 + 100 bytes into the superpage.
copy-super_example :
    ((i : ℕ)
      → i < 8
      → translate with_super root (page_va + 3 * pgsize + 100 + i)
        ≡ some (big_frame + 3 * pgsize + 100 + i))
    × (big_frame + 100 + 8 ≤ big_frame + 3 * pgsize)
    × (copyin root 0x80404000 (page_va + 3 * pgsize + 100) 8 (machine_of with_super)
        ≡ ok success (copied (machine_of with_super) 0x80404000 (big_frame + 100) 8))
    × (copyout root (page_va + 3 * pgsize + 100) 0x80404000 8 (machine_of with_super)
        ≡ ok success (copied (machine_of with_super) (big_frame + 100) 0x80404000 8))
copy-super_example =
    copy-super root page_va 3 100 8 (machine_of with_super) user_super (omega arith) (omega arith)
      (omega arith) (omega arith) (omega arith) 0x80404000

mappages-Maps_example :
    (s' : Machine) × (mappages root page_va pgsize frame rwu (machine_of tables) ≡ ok success s')
    × Maps s'.mem root page_va frame pgsize
mappages-Maps_example =
    mappages-Maps root page_va frame rwu (machine_of tables) (omega arith) refl
      (record { level2 = level2_of_tables; level1 = level1_of_tables }) bottom_free (omega arith)
      (omega arith) refl rwu-IsUserPerm (omega arith) (omega arith)

supermappages-Maps_example :
    (s' : Machine) × (supermappages root page_va big_frame rwu (machine_of rooted) ≡ ok success s')
    × Maps s'.mem root page_va big_frame superpgsize
supermappages-Maps_example =
    supermappages-Maps root page_va big_frame rwu (omega arith) refl (omega arith) refl
      rwu-IsUserPerm refl (machine_of rooted) level2_of_rooted middle_free (omega arith) refl
      (omega arith)

uvmunmap-super_example :
    (s' : Machine) × (uvmunmap 0x80100000 root page_va 512 true (machine_of with_super) ≡ ok tt s')
    × IsPool s' (big_frame ∷ 0x80800000 ∷ [])
    × ((off : ℕ) → off < superpgsize → translate s'.mem root (page_va + off) ≡ none)
uvmunmap-super_example =
    uvmunmap-super 0x80100000 (0x80800000 ∷ []) (machine_of with_super) IsMapped-super one_super
      (omega arith, tt) (omega arith)

seven_pages : pg_round_up (page_va + 7 * pgsize - 100) + pgsize < page_va + superpgsize + 9000
unfolding pg_round_up
seven_pages = omega arith

uvmdealloc-part_example :
    uvmdealloc 0x80100000 root
      (page_va + superpgsize + 9000)
      (page_va + 7 * pgsize - 100)
      (machine_of with_super)
    ≡ panic Panic.uvmunmap_walk
uvmdealloc-part_example =
    uvmdealloc-part 0x80100000 (machine_of with_super) (omega arith) IsMapped-super
      (page_va + superpgsize + 9000) (page_va + 7 * pgsize - 100) (omega arith) (omega arith)
      seven_pages (omega arith)

uvmdealloc-last_example :
    (s' : Machine) × (uvmdealloc 0x80100000 root
        (page_va + superpgsize)
        (page_va + 511 * pgsize)
        (machine_of with_super)
      ≡ ok (page_va + 511 * pgsize) s')
    × (s'.freelist ≡ big_frame)
    × (s'.nfree ≡ 1)
    × ((off : ℕ) → off < superpgsize → translate s'.mem root (page_va + off) ≡ none)
uvmdealloc-last_example =
    uvmdealloc-last 0x80100000 (machine_of with_super) (omega arith) IsMapped-super
