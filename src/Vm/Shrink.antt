-- ===== src/Vm/Shrink.antt =====
-- `uvmdealloc` where the new size falls inside a superpage. `uvmunmap` looks for a superpage at
-- 2 MiB boundaries only, so it takes the superpage's entry for that of a 4096-byte page.
use csci5103_lab.Common.{
  ℕ, suc, ◌+◌, ◌-◌, ◌*◌, ◌/◌, ◌^◌, ◌≤◌, ◌<◌, ◌≡◌, refl, sym, ap, ◌∙◌, arith, true, false, leb, ◌==◌,
  none, ltb,
}
use mathlib.Core.Path.{subst}
use csci5103_lab.Riscv.{
  pgsize, superpgsize, pte_v, pte_r, has, pte_flags, max_va, pg_round_up, add64, int_to_u64,
}
use csci5103_lab.Riscv.Address.{px_super}
use csci5103_lab.Riscv.Pte.{has-v}
use csci5103_lab.Memory.{load64, store64, fill}
use csci5103_lab.Machine.{Machine, Panic, ok, panic, pure, ◌>>◌, bind_ok, bind_panic}
use csci5103_lab.Kalloc.{kfree, pool_start}
use csci5103_lab.Kalloc.FreeList.{kfree_mem-SameOutside}
use csci5103_lab.Vm.Walk.{slot_of, walk}
use csci5103_lab.Vm.Map.{unmap_page, unmap_at, uvmunmap_loop, uvmunmap}
use csci5103_lab.Vm.User.{uvmdealloc}
use csci5103_lab.Vm.Sv39.{translate}
use csci5103_lab.Vm.Lookup.{
  IsTable, IsLeaf, walk-super, walk_start, walk_from-table, walk_from-none,
}
use csci5103_lab.Vm.Unmap.{
  IsMapped, cleared, translate-cleared, uvmunmap_start, uvmunmap_loop-step, uvmunmap_loop-panic,
  uvmunmap_loop-end,
}
use csci5103_lab.Vm.Rounding.{
  unmap_at-page, flags_ne, round_up_page, round_up_from, round_up_top, round_up_above,
  int_to_u64_small, kfree-super,
}

module _ (kernel_end : ℕ) {table va p1 pa : ℕ} (s : Machine) (low : kernel_end ≤ pool_start)
    (is : IsMapped s.mem table va p1 pa) where
  -- The state after the first round: the superpage's first page is on the list of 4096-byte pages,
  -- and the superpage's entry is cleared.
  torn : Machine
  torn = record s {
    mem = store64 (store64 (fill s.mem pa 1 pgsize) pa s.freelist) (slot_of p1 1 va) 0;
    freelist = pa;
  }

  module _ (k : ℕ) (pos : 0 < k) (inside : k < 512) where
    walk-inside : walk table (va + k * pgsize) false s ≡ ok (slot_of p1 1 va) s
    walk-inside =
        let (same2, same1, same0) = px_super va (k * pgsize) is.aligned (omega arith) in
        walk-super table (va + k * pgsize) false s (omega (arith, is.in_space, is.aligned))
          (subst (λ (x : ℕ). IsTable s.mem (table + 8 * x) p1) (sym same2) is.level2)
          (subst (λ (x : ℕ). IsLeaf s.mem (p1 + 8 * x) pa) (sym same1) is.leaf)
        ∙ ap (λ (x : ℕ). ok (p1 + 8 * x) s) same1

    unmap_at-inside : unmap_at kernel_end table (va + k * pgsize) true s ≡ ok pgsize torn
    unfolding unmap_page torn
    unmap_at-inside =
        unmap_at-page kernel_end table (va + k * pgsize) true s (omega (arith, is.aligned))
        ∙ bind_ok (walk table (va + k * pgsize) false) _ walk-inside
        ∙ rw (not_null is.proper.1, is.leaf.valid, not_inner is.readable, is.leaf.page)
            (bind_ok (kfree kernel_end pa) _ (kfree-super kernel_end pa s low is.super))
      where
        not_null : 0 < p1 → (slot_of p1 1 va == 0) ≡ false
        not_null h = ground arith

        not_inner :
            has (load64 s.mem (slot_of p1 1 va)) pte_r ≡ true
            → (pte_flags (load64 s.mem (slot_of p1 1 va)) == pte_v) ≡ false
        not_inner h = flags_ne (load64 s.mem (slot_of p1 1 va)) h

  torn-cleared : IsTable torn.mem (slot_of table 2 va) p1 × (load64 torn.mem (slot_of p1 1 va) ≡ 0)
  unfolding torn
  torn-cleared =
      cleared is (store64 (fill s.mem pa 1 pgsize) pa s.freelist) pgsize
        (kfree_mem-SameOutside s.mem pa s.freelist)

  walk-torn : (k : ℕ) → k < 512 → walk table (va + k * pgsize) false torn ≡ ok 0 torn
  walk-torn k inside =
      let (same2, same1, same0) = px_super va (k * pgsize) is.aligned (omega arith) in
      let (kept, gone) = torn-cleared in
      walk_start table (va + k * pgsize) false torn (omega (arith, is.in_space, is.aligned))
      ∙ walk_from-table table (va + k * pgsize) 1 false torn refl
          (subst (λ (x : ℕ). IsTable torn.mem (table + 8 * x) p1) (sym same2) kept)
      ∙ walk_from-none p1 (va + k * pgsize) 0 torn refl (
          subst (λ (x : ℕ). has (load64 torn.mem (p1 + 8 * x)) pte_v ≡ false) (sym same1)
            (rw gone (has-v 0)))

  unmap_at-torn :
      (k : ℕ)
      → 0 < k
      → k < 512
      → unmap_at kernel_end table (va + k * pgsize) true torn ≡ panic Panic.uvmunmap_walk
  unfolding unmap_page
  unmap_at-torn k pos inside =
      unmap_at-page kernel_end table (va + k * pgsize) true torn (omega (arith, is.aligned))
      ∙ bind_ok (walk table (va + k * pgsize) false) _ (walk-torn k inside)

  -- `n` pages are to go, from page `k` of the superpage on.
  uvmdealloc-start :
      (oldsz newsz k n : ℕ)
      → newsz < oldsz
      → pg_round_up newsz ≡ va + k * pgsize
      → pg_round_up oldsz ≡ va + (k + n) * pgsize
      → 0 < n
      → n < 2 ^ 31
      → uvmdealloc kernel_end table oldsz newsz s
        ≡ ((uvmunmap kernel_end table (va + k * pgsize) n true >> pure newsz) s)
  unfolding uvmdealloc
  uvmdealloc-start oldsz newsz k n less new_up old_up some_pages small =
      rw (shrinks, new_up, old_up, smaller, count)
    where
      shrinks : leb oldsz newsz ≡ false
      shrinks = ground arith

      smaller : ltb (va + k * pgsize) (va + (k + n) * pgsize) ≡ true
      smaller = ground arith

      pages : (va + (k + n) * pgsize - (va + k * pgsize)) / pgsize ≡ n
      pages = omega arith

      count : int_to_u64 ((va + (k + n) * pgsize - (va + k * pgsize)) / pgsize) ≡ n
      count = ap int_to_u64 pages ∙ int_to_u64_small n small

  -- The first round clears the superpage's entry, and the second finds no page.
  uvmunmap-part :
      (k n : ℕ)
      → 0 < k
      → k < 511
      → 2 ≤ n
      → va + (k + n) * pgsize ≤ max_va
      → uvmunmap kernel_end table (va + k * pgsize) n true s ≡ panic Panic.uvmunmap_walk
  uvmunmap-part k n pos inside two fits =
      uvmunmap_start kernel_end table (va + k * pgsize) n true s (omega (arith, is.aligned))
      ∙ uvmunmap_loop-step kernel_end n table (va + k * pgsize) end_va pgsize true s torn first
          (unmap_at-inside k pos (omega arith))
      ∙ second
    where
      end_va : ℕ
      end_va = add64 (va + k * pgsize) (n * pgsize)

      end_eq : end_va ≡ va + (k + n) * pgsize
      end_eq = omega (arith, fits)

      first : ltb (va + k * pgsize) end_va ≡ true
      first = rw end_eq (ground (arith, two))

      next_va : add64 (va + k * pgsize) pgsize ≡ va + (k + 1) * pgsize
      next_va = omega (arith, fits, two)

      more : n ≡ suc (n - 1)
      more = omega (arith, two)

      before_end : ltb (va + (k + 1) * pgsize) end_va ≡ true
      before_end = rw end_eq (ground (arith, two))

      second :
          uvmunmap_loop kernel_end n table (add64 (va + k * pgsize) pgsize) end_va true torn
          ≡ panic Panic.uvmunmap_walk
      second =
          ap (λ (x : ℕ). uvmunmap_loop kernel_end n table x end_va true torn) next_va
          ∙ ap
              (λ (x : ℕ). uvmunmap_loop kernel_end x table (va + (k + 1) * pgsize) end_va true torn)
              more
          ∙ uvmunmap_loop-panic kernel_end (n - 1) table (va + (k + 1) * pgsize) end_va true torn
              Panic.uvmunmap_walk before_end (unmap_at-torn (k + 1) (omega arith) (omega arith))

  -- Shrinking a process from any size up to the top of the address space to any size inside a superpage, in bytes,
  -- panics, if the first page to go is neither the superpage's first page nor its last, and more than one page is to go,
  -- whatever lies behind the superpage.
  pub uvmdealloc-part :
      (oldsz newsz : ℕ)
      → va < newsz
      → newsz ≤ va + 510 * pgsize
      → pg_round_up newsz + pgsize < oldsz
      → oldsz ≤ max_va
      → uvmdealloc kernel_end table oldsz newsz s ≡ panic Panic.uvmunmap_walk
  uvmdealloc-part oldsz newsz above inside two top =
      uvmdealloc-start oldsz newsz k n (omega (arith, two, round_up_above newsz newsz_top)) new_up
        old_up (omega (arith, many)) (omega (arith, top))
      ∙ bind_panic (uvmunmap kernel_end table (va + k * pgsize) n true) _ (
          uvmunmap-part k n (omega (arith, above)) (omega (arith, inside)) many
            (omega (arith, top, many, old_page)))
    where
      k : ℕ
      k = (newsz - va + (pgsize - 1)) / pgsize

      last : ℕ
      last = (oldsz - va + (pgsize - 1)) / pgsize

      n : ℕ
      n = last - k

      newsz_top : newsz ≤ max_va
      newsz_top = omega (arith, inside, is.in_space, is.aligned)

      new_up : pg_round_up newsz ≡ va + k * pgsize
      new_up = round_up_from va newsz (omega (arith, is.aligned)) (omega (arith, above)) newsz_top

      last_up : pg_round_up oldsz ≡ va + last * pgsize
      last_up =
          round_up_from va oldsz (omega (arith, is.aligned))
            (omega (arith, above, two, round_up_above newsz newsz_top)) top

      many : 2 ≤ n
      many = omega (arith, two, new_up, above, round_up_above newsz newsz_top)

      old_page : va + last * pgsize ≤ max_va
      old_page = omega (arith, sym last_up, round_up_top oldsz top)

      old_up : pg_round_up oldsz ≡ va + (k + n) * pgsize
      old_up = last_up ∙ ap (λ x. va + x * pgsize) (omega (arith, many))

  -- Giving back the last 4096 bytes of a superpage succeeds, and leaves none of the 2 MiB mapped;
  -- the superpage's first page heads the list of 4096-byte pages and the superpage is not returned
  -- to the pool.
  pub uvmdealloc-last :
      (s' : Machine) × (uvmdealloc kernel_end table (va + superpgsize) (va + 511 * pgsize) s
        ≡ ok (va + 511 * pgsize) s')
      × (s'.freelist ≡ pa)
      × (s'.nfree ≡ s.nfree)
      × ((off : ℕ) → off < superpgsize → translate s'.mem table (va + off) ≡ none)
  unfolding torn
  uvmdealloc-last = (
    torn,
    uvmdealloc-start (va + superpgsize) (va + 511 * pgsize) 511 1 (omega arith)
          (round_up_page (va + 511 * pgsize) (omega (arith, is.aligned))
            (omega (arith, is.in_space)))
          (round_up_page (va + superpgsize) (omega (arith, is.aligned))
            (omega (arith, is.in_space)))
          (omega arith) (omega arith)
        ∙ bind_ok (uvmunmap kernel_end table (va + 511 * pgsize) 1 true) _ (
            uvmunmap_start kernel_end table (va + 511 * pgsize) 1 true s (omega (arith, is.aligned))
            ∙ uvmunmap_loop-step kernel_end 1 table (va + 511 * pgsize) end_va pgsize true s torn
                (first is.in_space) (unmap_at-inside 511 (omega arith) (omega arith))
            ∙ uvmunmap_loop-end kernel_end 0 table (add64 (va + 511 * pgsize) pgsize) end_va true
                torn (last is.in_space)),
    refl,
    refl,
    λ off k.
        translate-cleared torn.mem table va off is.in_space is.aligned k torn-cleared.0
          torn-cleared.1,
  )
    where
      end_va : ℕ
      end_va = add64 (va + 511 * pgsize) (1 * pgsize)

      first : va < max_va → ltb (va + 511 * pgsize) end_va ≡ true
      first h = ground arith

      last : va < max_va → ltb (add64 (va + 511 * pgsize) pgsize) end_va ≡ false
      last h = ground arith
