-- ===== src/Proc/Parents/Always.antt =====
-- Every step of kernel/proc.c keeps the invariant of the process table.
use csci5103_lab.Common.{
  some-inj, ℕ, ◌+◌, ◌^◌, ◌≤◌, ◌<◌, ◌≡◌, inl, inr, refl, sym, ap, ◌∙◌, arith, some, set, ltb, ◌==◌,
  Bool-cases,
}
use csci5103_lab.Riscv.{add64, int_to_u64, pte_w}
use csci5103_lab.Machine.{Machine, Returns, returned, Returns-any, Returns-bind, Returns-ok}
use csci5103_lab.Vm.User.{uvmalloc, uvmdealloc}
use csci5103_lab.Proc.{Chan, used, runnable, running, Proc, Table, at, is_state}
use csci5103_lab.Proc.Table.{setkilled, sleep, sleep_end, yield, schedule}
use csci5103_lab.Proc.Life.{Kernel, growproc, fork_parent, fork_runnable}
use csci5103_lab.Proc.Steps.{
  Step, forks, adopts, starts, exits, waits, sleeps, tidies, yields, schedules, wakes, kills, marks,
  grows, Reach, start, next,
}
use csci5103_lab.Proc.Parents.Entries.{live, IsLive, IsTable, set-IsLive}
use csci5103_lab.Proc.Parents.Changes.{
  Keeps, KeepsAll-IsTable, set-KeepsAll, set-IsTable, wakeup-KeepsAll, kill-KeepsAll,
}
use csci5103_lab.Proc.Parents.Exits.{exit_zombie-IsTable}
use csci5103_lab.Proc.Parents.Forks.{fork_copy-Returns, wait_round-Returns}

module _ (init n : ℕ) (ps : Table) (is : IsTable init ps n) where
  kept : (i : ℕ) (p : Proc) → Keeps (at ps i) p → IsTable init (set ps i p) n
  kept i p keeps = KeepsAll-IsTable init n ps (set ps i p) (set-KeepsAll ps i p keeps) is

  fork_parent-IsTable :
      (me i : ℕ)
      → (at ps me).state ≡ running
      → (at ps i).state ≡ used
      → IsTable init (fork_parent me i ps) n
  unfolding fork_parent
  fork_parent-IsTable me i runs fresh =
      set-IsTable init n n ps i child is (stays init is.init_lives)
        (λ j q e. stays q (is.parents_live j q e))
        (λ q e. stays q (ap (λ x. live (at ps x).state) (sym (some-inj e)) ∙ ap live runs))
        (inr (inl refl)) (omega arith) (is.pids_below i)
    where
      child : Proc
      child = record (at ps i) { parent = some me }

      stays : (q : ℕ) → IsLive ps q → IsLive (set ps i child) q
      stays = set-IsLive ps i child (λ h. h)

  fork_runnable-IsTable : (i : ℕ) → IsTable init (fork_runnable i ps) n
  unfolding fork_runnable
  fork_runnable-IsTable i = kept i _ (refl, refl, λ h. refl)

  sleep-IsTable : (me : ℕ) (chan : Chan) → IsTable init (sleep me chan ps) n
  unfolding sleep
  sleep-IsTable me chan = kept me _ (refl, refl, λ h. refl)

  sleep_end-IsTable : (me : ℕ) → IsTable init (sleep_end me ps) n
  unfolding sleep_end
  sleep_end-IsTable me = kept me _ (refl, refl, λ h. h)

  yield-IsTable : (me : ℕ) → IsTable init (yield me ps) n
  unfolding yield
  yield-IsTable me = kept me _ (refl, refl, λ h. refl)

  setkilled-IsTable : (i : ℕ) → IsTable init (setkilled i ps) n
  unfolding setkilled
  setkilled-IsTable i = kept i _ (refl, refl, λ h. h)

  schedule-IsTable : (i : ℕ) → IsTable init (schedule i ps).1 n
  unfolding schedule
  schedule-IsTable i = elim (Bool-cases (is_state (at ps i).state runnable)) [
    | inl chosen ↦ rw chosen (kept i _ (refl, refl, λ h. refl))
    | inr passed ↦ rw passed is
  ]

module _ (kernel_end trampoline init : ℕ) where
  growproc-Returns :
      (me n : ℕ) (k : Kernel) (s : Machine)
      → IsTable init k.table k.nextpid
      → Returns
          (λ r. IsTable init r.1.table r.1.nextpid × (r.1.nextpid ≤ k.nextpid))
          (growproc kernel_end trampoline me n k s)
  unfolding growproc
  growproc-Returns me n k s is =
      let p = at k.table me in
      let resized =
        λ (sz : ℕ). kept init k.nextpid k.table is me (record p { sz = sz }) (refl, refl, λ h. h) in
      let up = uvmalloc kernel_end p.pagetable p.sz (add64 p.sz n) pte_w in
      let down = uvmdealloc kernel_end p.pagetable p.sz (add64 p.sz (int_to_u64 n)) in
      elim (Bool-cases (n == 0)) [
        | inl same ↦ rw same (returned (resized p.sz, omega arith))
        | inr changed ↦ elim (Bool-cases (ltb n (2 ^ 31))) [
          | inl grown ↦
              rw (changed, grown)
                (Returns-bind up _ s (Returns-any (up s)) (λ sz s1 _. elim (Bool-cases (sz == 0)) [
                  | inl failed ↦ rw failed (returned (is, omega arith))
                  | inr done ↦ rw done (returned (resized sz, omega arith))
                ]))
          | inr shrunk ↦
              rw (changed, shrunk)
                (Returns-bind down _ s (Returns-any (down s))
                  (λ sz s1 _. returned (resized sz, omega arith)))
        ]
      ]

  Step-IsTable :
      (k k' : Kernel)
      → IsTable init k.table k.nextpid
      → (c : ℕ) → k.nextpid ≤ c
      → c + 1 < 2 ^ 31
      → Step kernel_end trampoline init k k'
      → IsTable init k'.table k'.nextpid × (k'.nextpid ≤ c + 1)
  Step-IsTable k k' is c h l (forks me entry s s' e) =
      let (table, _, bound) =
        Returns-ok e
          (fork_copy-Returns kernel_end trampoline init (c + 1) l me k s is (omega (arith, h))) in
      (table, bound)
  Step-IsTable k k' is c h l (adopts me i runs fresh) =
      (fork_parent-IsTable init k.nextpid k.table is me i runs fresh, omega (arith, h))
  Step-IsTable k k' is c h l (starts i fresh) =
      (fork_runnable-IsTable init k.nextpid k.table is i, omega (arith, h))
  Step-IsTable k k' is c h l (exits me status runs other) =
      (exit_zombie-IsTable init k.nextpid me status k.table other is, omega (arith, h))
  Step-IsTable k k' is c h l (waits me refused w s s' e) = (
    Returns-ok e (wait_round-Returns kernel_end trampoline init me k.nextpid refused k.table s is),
    omega (arith, h),
  )
  Step-IsTable k k' is c h l (sleeps me chan runs) =
      (sleep-IsTable init k.nextpid k.table is me chan, omega (arith, h))
  Step-IsTable k k' is c h l (tidies me) =
      (sleep_end-IsTable init k.nextpid k.table is me, omega (arith, h))
  Step-IsTable k k' is c h l (yields me runs) =
      (yield-IsTable init k.nextpid k.table is me, omega (arith, h))
  Step-IsTable k k' is c h l (schedules i) =
      (schedule-IsTable init k.nextpid k.table is i, omega (arith, h))
  Step-IsTable k k' is c h l (wakes me chan) = (
    KeepsAll-IsTable init k.nextpid k.table _ (wakeup-KeepsAll me chan k.table) is,
    omega (arith, h),
  )
  Step-IsTable k k' is c h l (kills pid) =
      (KeepsAll-IsTable init k.nextpid k.table _ (kill-KeepsAll pid k.table) is, omega (arith, h))
  Step-IsTable k k' is c h l (marks i) =
      (setkilled-IsTable init k.nextpid k.table is i, omega (arith, h))
  Step-IsTable k k' is c h l (grows me n done s s' e) =
      let (table, bound) = Returns-ok e (growproc-Returns me n k s is) in
      (table, omega (arith, bound, h))

  -- The steps on the way to a state
  abbrev pub steps : {k0 k : Kernel} → Reach kernel_end trampoline init k0 k → ℕ
  steps start = 0
  steps (next r st) = steps r + 1

  reached :
      (k0 k : Kernel)
      → IsTable init k0.table k0.nextpid
      → (r : Reach kernel_end trampoline init k0 k) → k0.nextpid + steps r < 2 ^ 31
      → IsTable init k.table k.nextpid × (k.nextpid ≤ k0.nextpid + steps r)
  reached k0 k is start small = (is, omega arith)
  reached k0 k is (next r st) small =
      let (table, bound) = reached k0 _ is r (omega (arith, small)) in
      let (table', bound') =
        Step-IsTable _ k table (k0.nextpid + steps r) bound (omega (arith, small)) st in
      (table', omega (arith, bound'))

  -- In every state that the steps of `fork`, `exit`, `wait`, `sleep`, `wakeup`, `yield`, `kill`,
  -- `growproc` and the scheduler reach, in any order, from a state where it holds, in so few steps that `nextpid`,
  -- a 32-bit `int`, stays below 2 ^ 31: init is alive, the parent of every process is alive, no two processes
  -- have the same pid, and all pids are below `nextpid`.
  pub Reach-IsTable :
      (k0 k : Kernel)
      → IsTable init k0.table k0.nextpid
      → (r : Reach kernel_end trampoline init k0 k) → k0.nextpid + steps r < 2 ^ 31
      → IsTable init k.table k.nextpid
  Reach-IsTable k0 k is r small = (reached k0 k is r small).0
