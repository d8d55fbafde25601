-- ===== src/Proc/Tests.antt =====
-- Theorems on kernel/proc.c applied to a table of init, a shell and one free entry.
use csci5103_lab.Common.{
  ℕ, zero, suc, ◌<◌, ◌≡◌, ◌≢◌, refl, arith, false, some, [], ◌∷◌, if◌then◌else◌,
}
use csci5103_lab.Proc.{sleeping, running, zombie, proc_at, Proc, no_proc, Table, at, is_index}
use csci5103_lab.Proc.Table.{exit_zombie}
use csci5103_lab.Proc.Life.{Kernel}
use csci5103_lab.Proc.Steps.{start, next, exits}
use csci5103_lab.Proc.Parents.{IsLive, IsTable, Reach-IsTable}
use csci5103_lab.Proc.Wakeups.{is_waiting, exit_zombie_lem}

-- init waits for its children, and the shell runs.
abbrev init_proc : Proc
init_proc = record no_proc { state = sleeping; chan = proc_at 0; pid = 1 }

abbrev shell : Proc
shell = record no_proc { state = running; pid = 2; parent = some 0 }

abbrev two_procs : Table
two_procs = init_proc ∷ shell ∷ no_proc ∷ []

abbrev booted : Kernel
booted = record { table = two_procs; nextpid = 3; files = []; inodes = [] }

booted-IsTable : IsTable 0 two_procs 3
booted-IsTable = record {
  init_lives = refl;
  parents_live = up;
  pids_differ = differ;
  pids_below = below;
}
  where
    up : (j q : ℕ) → (at two_procs j).parent ≡ some q → IsLive two_procs q
    up zero q e = absurd (cc)
    up (suc zero) zero e = refl
    up (suc zero) (suc q) e = absurd (cc)
    up (suc (suc zero)) q e = absurd (cc)
    up (suc (suc (suc j))) q e = absurd (cc)

    differ :
        (i j : ℕ) → (at two_procs i).pid ≡ (at two_procs j).pid → (at two_procs i).pid ≢ 0 → i ≡ j
    differ zero zero e z = refl
    differ zero (suc zero) e z = absurd (omega arith)
    differ zero (suc (suc zero)) e z = absurd (omega arith)
    differ zero (suc (suc (suc j))) e z = absurd (omega arith)
    differ (suc zero) zero e z = absurd (omega arith)
    differ (suc zero) (suc zero) e z = refl
    differ (suc zero) (suc (suc zero)) e z = absurd (omega arith)
    differ (suc zero) (suc (suc (suc j))) e z = absurd (omega arith)
    differ (suc (suc zero)) j e z = absurd (z refl)
    differ (suc (suc (suc i))) j e z = absurd (z refl)

    below : (j : ℕ) → (at two_procs j).pid < 3
    below zero = omega arith
    below (suc zero) = omega arith
    below (suc (suc zero)) = omega arith
    below (suc (suc (suc j))) = omega arith

Reach-IsTable_example : IsTable 0 (exit_zombie 3 0 1 7 two_procs) 3
Reach-IsTable_example =
    Reach-IsTable 0 0 0 booted (record booted { table = exit_zombie 3 0 1 7 two_procs })
      booted-IsTable (next start (exits 1 7 refl (λ e. omega (arith, e)))) (omega arith)

exit_zombie_lem_example :
    let ps' = exit_zombie 3 0 1 7 two_procs in
    ((j : ℕ)
      → (at ps' j).parent
        ≡ (if is_index (at two_procs j).parent 1 then some 0 else (at two_procs j).parent))
    × ((at ps' 1).state ≡ zombie)
    × ((at ps' 1).xstate ≡ 7)
    × (is_waiting (proc_at 0) (at ps' 0) ≡ false)
exit_zombie_lem_example =
    exit_zombie_lem 0 1 0 7 two_procs (λ e. omega (arith, e)) refl (λ e. omega (arith, e))
