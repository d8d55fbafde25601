-- ===== src/Proc/Steps.antt =====
-- The steps that the functions of kernel/proc.c take, one at a time: what runs between two changes of
-- the locks that matter. `me` is the process that runs the step.
use csci5103_lab.Common.{ℕ, ◌≡◌, ◌≢◌, Bool, Option, length}
use csci5103_lab.Machine.{Machine, ok}
use csci5103_lab.Proc.{used, running, Chan, Table, at}
use csci5103_lab.Proc.Table.{
  wakeup, kill, setkilled, exit_zombie, sleep, sleep_end, yield, schedule,
}
use csci5103_lab.Proc.Life.{
  Kernel, growproc, fork_copy, fork_parent, fork_runnable, Waited, wait_round,
}

module _ (kernel_end trampoline init : ℕ) where
  pub data Step : Kernel → Kernel → Type 0 where
    forks :
        {k k' : Kernel} (me : ℕ) (entry : Option ℕ) (s s' : Machine)
        → fork_copy kernel_end trampoline me k s ≡ ok (entry, k') s'
        → Step k k'
    adopts :
        {k : Kernel} (me i : ℕ)
        → (at k.table me).state ≡ running
        → (at k.table i).state ≡ used
        → Step k (record k { table = fork_parent me i k.table })
    starts :
        {k : Kernel} (i : ℕ)
        → (at k.table i).state ≡ used
        → Step k (record k { table = fork_runnable i k.table })
    exits :
        {k : Kernel} (me status : ℕ)
        → (at k.table me).state ≡ running
        → me ≢ init
        → Step k (record k { table = exit_zombie (length k.table) init me status k.table })
    waits :
        {k : Kernel} {ps : Table} (me : ℕ) (refused : Bool) (w : Waited) (s s' : Machine)
        → wait_round kernel_end trampoline me refused k.table s ≡ ok (w, ps) s'
        → Step k (record k { table = ps })
    sleeps :
        {k : Kernel} (me : ℕ) (chan : Chan)
        → (at k.table me).state ≡ running
        → Step k (record k { table = sleep me chan k.table })
    tidies : {k : Kernel} (me : ℕ) → Step k (record k { table = sleep_end me k.table })
    yields :
        {k : Kernel} (me : ℕ)
        → (at k.table me).state ≡ running
        → Step k (record k { table = yield me k.table })
    schedules : {k : Kernel} (i : ℕ) → Step k (record k { table = (schedule i k.table).1 })
    wakes :
        {k : Kernel} (me : Option ℕ) (chan : Chan)
        → Step k (record k { table = wakeup me chan k.table })
    kills : {k : Kernel} (pid : ℕ) → Step k (record k { table = (kill pid k.table).1 })
    marks : {k : Kernel} (i : ℕ) → Step k (record k { table = setkilled i k.table })
    grows :
        {k k' : Kernel} (me n : ℕ) (done : Bool) (s s' : Machine)
        → growproc kernel_end trampoline me n k s ≡ ok (done, k') s'
        → Step k k'

  pub data Reach (k0 : Kernel) : Kernel → Type 0 where
    start : Reach k0 k0
    next : {k k' : Kernel} → Reach k0 k → Step k k' → Reach k0 k'
