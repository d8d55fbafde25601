-- ===== src/Vm/User.antt =====
-- User address spaces: `uvmcreate`, `uvmfirst`, `uvmalloc`, `uvmdealloc`, `freewalk`, `uvmfree`,
-- `uvmcopy` and `uvmclear` of kernel/vm.c.
use csci5103_lab.Common.{
  ℕ, zero, suc, ◌+◌, ◌-◌, ◌*◌, ◌/◌, ◌%◌, true, false, ◌&&◌, not, ◌==◌, ltb, leb, if◌then◌else◌,
  bit_or,
}
use csci5103_lab.Riscv.{
  add64, int_to_u64, pgsize, superpgsize, pg_round_up, pte_v, pte_r, pte_w, pte_x, pte_u, has,
  pte_leaf, pte_to_pa, pte_flags,
}
use csci5103_lab.Machine.{
  Panic, hang, M, pure, ◌>>=◌, ◌>>◌, panic_if, read_pte, write_pte, memset, memmove,
}
use csci5103_lab.Kalloc.{kalloc, kfree, superalloc, superfree}
use csci5103_lab.Vm.Walk.{walk, super_entry}
use csci5103_lab.Vm.Map.{Status, success, failure, mappages, supermappages, uvmunmap}

unfoldable pub uvmcreate : M ℕ
uvmcreate = do p ← kalloc; if p == 0 then pure 0 else (do memset p 0 pgsize; pure p)

-- `src` is the kernel address of the first program's bytes.
unfoldable pub uvmfirst : ℕ → ℕ → ℕ → M (Unit {0})
uvmfirst pagetable src sz = do
  panic_if (leb pgsize sz) Panic.uvmfirst
  p ← kalloc
  memset p 0 pgsize
  mappages pagetable 0 pgsize p (bit_or (bit_or (bit_or pte_w pte_r) pte_x) pte_u)
  memmove p src sz

module _ (kernel_end : ℕ) where
  -- `npages` is an `int`, which `uvmunmap` takes as a `uint64`.
  unfoldable pub uvmdealloc : ℕ → ℕ → ℕ → M ℕ
  uvmdealloc pagetable oldsz newsz =
      if leb oldsz newsz
      then pure oldsz
      else if ltb (pg_round_up newsz) (pg_round_up oldsz)
      then (do
        uvmunmap kernel_end pagetable (pg_round_up newsz)
            (int_to_u64 ((pg_round_up oldsz - pg_round_up newsz) / pgsize)) true
        pure newsz)
      else pure newsz

  -- The two branches of the loop of `uvmalloc`; `next` is given the size of what was mapped.
  unfoldable pub grow_super : ℕ → ℕ → ℕ → ℕ → (ℕ → M ℕ) → M ℕ
  grow_super pagetable a oldsz xperm next = do
    p ← superalloc
    if p == 0 then (do uvmdealloc pagetable a oldsz; pure 0) else do
      memset p 0 superpgsize
      r ← supermappages pagetable a p (bit_or (bit_or (bit_or pte_r pte_w) pte_u) xperm)
      elim r [
        | failure ↦ do superfree p; uvmdealloc pagetable a oldsz; pure 0
        | success ↦ next superpgsize
      ]

  unfoldable pub grow_page : ℕ → ℕ → ℕ → ℕ → (ℕ → M ℕ) → M ℕ
  grow_page pagetable a oldsz xperm next = do
    p ← kalloc
    if p == 0 then (do uvmdealloc pagetable a oldsz; pure 0) else do
      memset p 0 pgsize
      r ← mappages pagetable a pgsize p (bit_or (bit_or pte_r pte_u) xperm)
      elim r [
        | failure ↦ do kfree kernel_end p; uvmdealloc pagetable a oldsz; pure 0
        | success ↦ next pgsize
      ]

  unfoldable pub uvmalloc_loop : ℕ → ℕ → ℕ → ℕ → ℕ → ℕ → M ℕ
  uvmalloc_loop zero pagetable a oldsz newsz xperm = λ s. hang
  uvmalloc_loop (suc k) pagetable a oldsz newsz xperm =
      let next = λ (sz : ℕ). uvmalloc_loop k pagetable (add64 a sz) oldsz newsz xperm in
      if ltb a newsz
      then (if (a % superpgsize == 0) && leb superpgsize (newsz - a)
          then grow_super pagetable a oldsz xperm next
          else grow_page pagetable a oldsz xperm next)
      else pure newsz

  -- A round for each page from the rounded old size on, and one for the last test.
  unfoldable pub uvmalloc : ℕ → ℕ → ℕ → ℕ → M ℕ
  uvmalloc pagetable oldsz newsz xperm =
      if ltb newsz oldsz
      then pure oldsz
      else uvmalloc_loop ((newsz - pg_round_up oldsz) / pgsize + 2) pagetable (pg_round_up oldsz)
          (pg_round_up oldsz) newsz xperm

  -- The loop of `freewalk` from entry `i` on; `down` is the recursive call.
  unfoldable pub freewalk_loop : (ℕ → M (Unit {0})) → ℕ → ℕ → ℕ → M (Unit {0})
  freewalk_loop down zero pagetable i = pure tt
  freewalk_loop down (suc k) pagetable i = do
    pte ← read_pte (pagetable + 8 * i)
    if has pte pte_v && not (pte_leaf pte)
        then (do down (pte_to_pa pte); write_pte (pagetable + 8 * i) 0)
        else panic_if (has pte pte_v) Panic.freewalk_leaf
    freewalk_loop down k pagetable (i + 1)

  -- The fuel is the depth of the recursion: 3 for a table of three levels.
  unfoldable pub freewalk : ℕ → ℕ → M (Unit {0})
  freewalk zero pagetable = λ s. hang
  freewalk (suc d) pagetable =
      freewalk_loop (freewalk d) 512 pagetable 0 >> kfree kernel_end pagetable

  unfoldable pub uvmfree : ℕ → ℕ → M (Unit {0})
  uvmfree pagetable sz = do
    if ltb 0 sz then uvmunmap kernel_end pagetable 0 (pg_round_up sz / pgsize) true else pure tt
    freewalk 3 pagetable

  -- `err:` of `uvmcopy`
  unfoldable pub copy_undo : ℕ → ℕ → M Status
  copy_undo new i = do uvmunmap kernel_end new 0 (i / pgsize) true; pure failure

  unfoldable pub copy_super : ℕ → ℕ → ℕ → (ℕ → M Status) → M Status
  copy_super new i slot next = do
    pte ← read_pte slot
    p ← superalloc
    if p == 0 then copy_undo new i else do
      memmove p (pte_to_pa pte) superpgsize
      r ← supermappages new i p (pte_flags pte)
      elim r [ failure ↦ do superfree p; copy_undo new i | success ↦ next superpgsize ]

  unfoldable pub copy_page : ℕ → ℕ → ℕ → (ℕ → M Status) → M Status
  copy_page old new i next = do
    slot ← walk old i false
    panic_if (slot == 0) Panic.uvmcopy_walk
    pte ← read_pte slot
    panic_if (not (has pte pte_v)) Panic.uvmcopy_not_present
    p ← kalloc
    if p == 0 then copy_undo new i else do
      memmove p (pte_to_pa pte) pgsize
      r ← mappages new i pgsize p (pte_flags pte)
      elim r [ failure ↦ do kfree kernel_end p; copy_undo new i | success ↦ next pgsize ]

  unfoldable pub uvmcopy_loop : ℕ → ℕ → ℕ → ℕ → ℕ → M Status
  uvmcopy_loop zero old new i sz = λ s. hang
  uvmcopy_loop (suc k) old new i sz =
      let next = λ (n : ℕ). uvmcopy_loop k old new (add64 i n) sz in
      if ltb i sz
      then (do
        slot ← super_entry old i
        if slot == 0 then copy_page old new i next else copy_super new i slot next)
      else pure success

  unfoldable pub uvmcopy : ℕ → ℕ → ℕ → M Status
  uvmcopy old new sz = uvmcopy_loop (sz / pgsize + 2) old new 0 sz

-- `*pte &= ~PTE_U`
unfoldable pub uvmclear : ℕ → ℕ → M (Unit {0})
uvmclear pagetable va = do
  slot ← walk pagetable va false
  panic_if (slot == 0) Panic.uvmclear
  pte ← read_pte slot
  write_pte slot (if has pte pte_u then pte - pte_u else pte)
