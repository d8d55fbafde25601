-- ===== src/Vm/Access.antt =====
-- `copyin` and `copyout` within one page, against the addresses that user accesses reach.
use csci5103_lab.Common.{
  ℕ, suc, ◌+◌, ◌-◌, ◌/◌, ◌%◌, ◌^◌, ◌≤◌, ◌<◌, ◌≡◌, ◌∙◌, arith, true, false, leb, ◌==◌,
}
use csci5103_lab.Riscv.{pgsize, pg_round_down, pte_w, has, max_va, add64}
use csci5103_lab.Memory.{load64, copy}
use csci5103_lab.Machine.{Machine, ok, bind_ok}
use csci5103_lab.Vm.Walk.{walk, walkaddr}
use csci5103_lab.Vm.Map.{success}
use csci5103_lab.Vm.Transfer.{chunk, copyin_loop, copyin, copyout_loop, copyout}

-- The state after a copy.
abbrev pub copied : Machine → ℕ → ℕ → ℕ → Machine
copied s dst src n = record s { mem = copy s.mem dst src n }

round_down_offset :
    (base off : ℕ) → base % pgsize ≡ 0 → off < pgsize → pg_round_down (base + off) ≡ base
unfolding pg_round_down
round_down_offset base off al h = omega arith

chunk-all :
    (base off len : ℕ)
    → base % pgsize ≡ 0
    → off < pgsize
    → off + len ≤ pgsize
    → chunk (base + off) len ≡ len
unfolding chunk
chunk-all base off len al inside fits = rw (round_down_offset base off al inside) (ground arith)

is_positive : (n : ℕ) → 0 < n → (n == 0) ≡ false
is_positive n h = ground arith

-- One round of `copyin` on a mapped page.
copyin_loop-step :
    (k table dst va len pa : ℕ) (s : Machine)
    → 0 < len
    → walkaddr table (pg_round_down va) s ≡ ok pa s
    → 0 < pa
    → let n = chunk va len in
      copyin_loop (suc k) table dst va len s
      ≡ copyin_loop k table
          (add64 dst n)
          (add64 (pg_round_down va) pgsize)
          (len - n)
          (copied s dst (add64 pa (va - pg_round_down va)) n)
unfolding copyin_loop
copyin_loop-step k table dst va len pa s pos e nz =
    rw (is_positive len pos)
      (bind_ok (walkaddr table (pg_round_down va)) _ e ∙ rw (is_positive pa nz))

copyin_loop-end :
    (k table dst va len : ℕ) (s : Machine)
    → len ≡ 0
    → copyin_loop (suc k) table dst va len s ≡ ok success s
unfolding copyin_loop
copyin_loop-end k table dst va len s e = rw e

-- One round of `copyout` on a mapped writable page.
copyout_loop-step :
    (k table va src len pa slot : ℕ) (s : Machine)
    → 0 < len
    → pg_round_down va < max_va
    → walk table (pg_round_down va) false s ≡ ok slot s
    → 0 < slot
    → has (load64 s.mem slot) pte_w ≡ true
    → walkaddr table (pg_round_down va) s ≡ ok pa s
    → 0 < pa
    → let n = chunk va len in
      copyout_loop (suc k) table va src len s
      ≡ copyout_loop k table
          (add64 (pg_round_down va) pgsize)
          (add64 src n)
          (len - n)
          (copied s (add64 pa (va - pg_round_down va)) src n)
unfolding copyout_loop
copyout_loop-step k table va src len pa slot s pos h w nz writable e nz' =
    rw (is_positive len pos, below)
      (bind_ok (walk table (pg_round_down va) false) _ w
        ∙ rw (is_positive slot nz, writable)
            (bind_ok (walkaddr table (pg_round_down va)) _ e ∙ rw (is_positive pa nz')))
  where
    below : leb max_va (pg_round_down va) ≡ false
    below = ground arith

copyout_loop-end :
    (k table va src len : ℕ) (s : Machine)
    → len ≡ 0
    → copyout_loop (suc k) table va src len s ≡ ok success s
unfolding copyout_loop
copyout_loop-end k table va src len s e = rw e

module _ (table base off len pa : ℕ) (s : Machine) (al : base % pgsize ≡ 0) (inside : off < pgsize)
    (pos : 0 < len) (fits : off + len ≤ pgsize) (found : walkaddr table base s ≡ ok pa s)
    (nz : 0 < pa) (small : pa < 2 ^ 56) where
  at_base : walkaddr table (pg_round_down (base + off)) s ≡ ok pa s
  at_base = rw (round_down_offset base off al inside) found

  rounds : len / pgsize + 3 ≡ suc (suc (len / pgsize + 1))
  rounds = omega arith

  source : add64 pa (base + off - pg_round_down (base + off)) ≡ pa + off
  source = rw (round_down_offset base off al inside) (omega arith)

  -- A copy that stays in one page, where `walkaddr` finds the page at `pa`.
  pub copyin-within :
      (dst : ℕ) → copyin table dst (base + off) len s ≡ ok success (copied s dst (pa + off) len)
  unfolding copyin
  copyin-within dst = rw rounds (
      copyin_loop-step (suc (len / pgsize + 1)) table dst (base + off) len pa s pos at_base nz
      ∙ copyin_loop-end (len / pgsize + 1) table _ _ (len - chunk (base + off) len) _ done
      ∙ rw (source, chunk-all base off len al inside fits))
    where
      done : len - chunk (base + off) len ≡ 0
      done = rw (chunk-all base off len al inside fits) (omega arith)

  pub copyout-within :
      (src slot : ℕ)
      → base < max_va
      → walk table base false s ≡ ok slot s
      → 0 < slot
      → has (load64 s.mem slot) pte_w ≡ true
      → copyout table (base + off) src len s ≡ ok success (copied s (pa + off) src len)
  unfolding copyout
  copyout-within src slot h w nz' writable = rw rounds (
      copyout_loop-step (suc (len / pgsize + 1)) table (base + off) src len pa slot s pos
        (rw down h) (rw down w) nz' writable at_base nz
      ∙ copyout_loop-end (len / pgsize + 1) table _ _ (len - chunk (base + off) len) _ done
      ∙ rw (source, chunk-all base off len al inside fits))
    where
      down : pg_round_down (base + off) ≡ base
      down = round_down_offset base off al inside

      done : len - chunk (base + off) len ≡ 0
      done = rw (chunk-all base off len al inside fits) (omega arith)
