-- ===== src/Vm/Transfer.antt =====
-- Copies between kernel and user memory: `copyout`, `copyin` and `copyinstr` of kernel/vm.c.
use csci5103_lab.Common.{
  ℕ, zero, suc, ◌+◌, ◌-◌, ◌/◌, Bool, true, false, not, ◌==◌, ltb, leb, if◌then◌else◌,
}
use csci5103_lab.Riscv.{add64, pgsize, pg_round_down, pte_w, has, max_va}
use csci5103_lab.Memory.{load8, store8}
use csci5103_lab.Machine.{ok, hang, M, pure, ◌>>=◌, ◌>>◌, read_pte, memmove}
use csci5103_lab.Vm.Walk.{walk, walkaddr}
use csci5103_lab.Vm.Map.{Status, success, failure}

-- The bytes from `va` to the end of its page, or `len` if that is less.
unfoldable pub chunk : ℕ → ℕ → ℕ
chunk va len = let n = pgsize - (va - pg_round_down va) in if ltb len n then len else n

unfoldable pub copyout_loop : ℕ → ℕ → ℕ → ℕ → ℕ → M Status
copyout_loop zero pagetable dstva src len = λ s. hang
copyout_loop (suc k) pagetable dstva src len =
    let va0 = pg_round_down dstva in
    let n = chunk dstva len in
    let next = copyout_loop k pagetable (add64 va0 pgsize) (add64 src n) (len - n) in
    if len == 0 then pure success else if leb max_va va0 then pure failure else do
      slot ← walk pagetable va0 false
      if slot == 0 then pure failure else do
        pte ← read_pte slot
        if not (has pte pte_w) then pure failure else do
          pa0 ← walkaddr pagetable va0
          if pa0 == 0 then pure failure else do memmove (add64 pa0 (dstva - va0)) src n; next

-- A round for each page that the range can touch, and one for the last test.
unfoldable pub copyout : ℕ → ℕ → ℕ → ℕ → M Status
copyout pagetable dstva src len = copyout_loop (len / pgsize + 3) pagetable dstva src len

unfoldable pub copyin_loop : ℕ → ℕ → ℕ → ℕ → ℕ → M Status
copyin_loop zero pagetable dst srcva len = λ s. hang
copyin_loop (suc k) pagetable dst srcva len =
    let va0 = pg_round_down srcva in
    let n = chunk srcva len in
    let next = copyin_loop k pagetable (add64 dst n) (add64 va0 pgsize) (len - n) in
    if len == 0 then pure success else do
      pa0 ← walkaddr pagetable va0
      if pa0 == 0 then pure failure else do memmove dst (add64 pa0 (srcva - va0)) n; next

unfoldable pub copyin : ℕ → ℕ → ℕ → ℕ → M Status
copyin pagetable dst srcva len = copyin_loop (len / pgsize + 3) pagetable dst srcva len

-- The inner loop of `copyinstr` over `n` bytes from `p` on: whether the null byte was met.
unfoldable pub copy_string : ℕ → ℕ → ℕ → M Bool
copy_string zero dst p s = ok false s
copy_string (suc n) dst p s =
    let byte = load8 s.mem p in
    let s' = record s { mem = store8 s.mem dst byte } in
    let rest = copy_string n (add64 dst 1) (add64 p 1) s' in if byte == 0 then ok true s' else rest

unfoldable pub copyinstr_loop : ℕ → ℕ → ℕ → ℕ → ℕ → M Status
copyinstr_loop zero pagetable dst srcva len = λ s. hang
copyinstr_loop (suc k) pagetable dst srcva len =
    let va0 = pg_round_down srcva in
    let n = chunk srcva len in
    let next = copyinstr_loop k pagetable (add64 dst n) (add64 va0 pgsize) (len - n) in
    if len == 0 then pure failure else do
      pa0 ← walkaddr pagetable va0
      if pa0 == 0 then pure failure else do
        got_null ← copy_string n dst (add64 pa0 (srcva - va0))
        if got_null then pure success else next

unfoldable pub copyinstr : ℕ → ℕ → ℕ → ℕ → M Status
copyinstr pagetable dst srcva max = copyinstr_loop (max / pgsize + 3) pagetable dst srcva max
