-- ===== src/Kalloc.antt =====
-- kernel/kalloc.c: the allocator of 4096-byte pages and the pool of 2 MiB superpages. A null pointer
-- is 0. `kernel_end` is the linker's symbol `end`.
pub mod FreeList
pub mod Pages
pub mod Pool
mod Tests
use csci5103_lab.Common.{
  ℕ, zero, suc, ◌+◌, ◌-◌, ◌*◌, ◌/◌, ◌%◌, ◌^◌, Bool, ◌||◌, not, List, ◌==◌, ltb, leb, if◌then◌else◌,
  get_or, set,
}
use csci5103_lab.Riscv.{add64, sub64, pgsize, superpgsize, pg_round_up, phys_stop}
use csci5103_lab.Memory.{load64, store64, fill}
use csci5103_lab.Machine.{Machine, Panic, Outcome, ok, panic, hang, M, pure, ◌>>=◌, ◌>>◌}

abbrev pub nsuperpages : ℕ
nsuperpages = 60

-- the lowest address of the superpage pool
abbrev pub pool_start : ℕ
pool_start = phys_stop - nsuperpages * superpgsize

-- Takes the page at the head of the list, or returns 0. The next page's address is in the page.
unfoldable pub kalloc : M ℕ
kalloc s =
    if s.freelist == 0
    then ok 0 s
    else ok s.freelist
        (record s { freelist = load64 s.mem s.freelist; mem = fill s.mem s.freelist 5 pgsize })

super_loop : ℕ → ℕ → Machine → Machine
super_loop zero top s = s
super_loop (suc k) top s =
    let top' = sub64 top superpgsize / superpgsize * superpgsize in
    super_loop k top' (record s { superpages = set s.superpages s.nfree top'; nfree = s.nfree + 1 })

unfoldable pub superinit : Machine → Machine
unfolding super_loop
superinit s = super_loop nsuperpages phys_stop (record s { nfree = 0 })

unfoldable pub superalloc : M ℕ
superalloc s =
    if s.nfree == 0
    then ok 0 s
    else let pg = get_or s.superpages (s.nfree - 1) 0 in
      ok pg (record s { nfree = s.nfree - 1; mem = fill s.mem pg 5 superpgsize })

unfoldable pub superfree : ℕ → M (Unit {0})
superfree pa s =
    if not (pa % superpgsize == 0)
    then panic Panic.superfree_alignment
    else if ltb pa pool_start || leb phys_stop pa
    then panic Panic.superfree_range
    else if leb nsuperpages s.nfree
    then panic Panic.superfree_overflow
    else ok tt (record s {
      mem = fill s.mem pa 1 superpgsize;
      superpages = set s.superpages s.nfree pa;
      nfree = s.nfree + 1;
    })

module _ (kernel_end : ℕ) where
  -- the test of `kfree`
  abbrev pub is_bad_page : ℕ → Bool
  is_bad_page pa = not (pa % pgsize == 0) || ltb pa kernel_end || leb phys_stop pa

  unfoldable pub kfree : ℕ → M (Unit {0})
  kfree pa s =
      if is_bad_page pa
      then panic Panic.kfree
      else ok tt (record s { mem = store64 (fill s.mem pa 1 pgsize) pa s.freelist; freelist = pa })

  freerange_loop : ℕ → ℕ → ℕ → M (Unit {0})
  freerange_loop zero p pa_end = λ s. hang
  freerange_loop (suc k) p pa_end =
      let rest = kfree p >> freerange_loop k (p + pgsize) pa_end in
      if leb (p + pgsize) pa_end then rest else pure tt

  -- One round for each page of the range, and one for the last test.
  unfoldable pub freerange : ℕ → ℕ → M (Unit {0})
  unfolding freerange_loop
  freerange pa_start pa_end =
      freerange_loop ((pa_end - pg_round_up pa_start) / pgsize + 1) (pg_round_up pa_start) pa_end

  unfoldable pub kinit : M (Unit {0})
  unfolding freerange superinit
  kinit s = freerange kernel_end pool_start (superinit s)
