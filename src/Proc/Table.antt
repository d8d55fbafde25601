-- ===== src/Proc/Table.antt =====
-- The functions of kernel/proc.c that only change the process table.
use csci5103_lab.Common.{
  ℕ, zero, suc, ◌+◌, Bool, true, false, ◌&&◌, Option, none, some, [], ◌∷◌, set, ◌==◌, if◌then◌else◌,
}
use csci5103_lab.Proc.{
  unused, sleeping, runnable, running, zombie, Chan, null, proc_at, Proc, Table, at, is_state,
  same_chan, is_index,
}

-- The body of the loop of `wakeup`, for a process that is not the caller.
unfoldable pub wake_one : Chan → Proc → Proc
wake_one chan p =
    if is_state p.state sleeping && same_chan p.chan chan then record p { state = runnable } else p

-- The loop, from entry `i` on; `me` is the caller.
unfoldable pub wake_from : Option ℕ → Chan → ℕ → Table → Table
wake_from me chan i [] = []
wake_from me chan i (p ∷ ps) =
    (if is_index me i then p else wake_one chan p) ∷ wake_from me chan (i + 1) ps

unfoldable pub wakeup : Option ℕ → Chan → Table → Table
wakeup me chan ps = wake_from me chan 0 ps

-- `kill`: whether a process has the pid.
unfoldable pub kill_one : Proc → Proc
kill_one p = record p {
  killed = true;
  state = if is_state p.state sleeping then runnable else p.state;
}

unfoldable pub kill : ℕ → Table → Bool × Table
kill pid [] = (false, [])
kill pid (p ∷ ps) =
    let rest = kill pid ps in if p.pid == pid then (true, kill_one p ∷ ps) else (rest.0, p ∷ rest.1)

unfoldable pub setkilled : ℕ → Table → Table
setkilled i ps = set ps i (record (at ps i) { killed = true })

unfoldable pub killed : ℕ → Table → Bool
killed i ps = (at ps i).killed

-- The loop of `reparent`, over the entries from `i` on.
unfoldable pub reparent_loop : ℕ → ℕ → ℕ → ℕ → Table → Table
reparent_loop zero init p i ps = ps
reparent_loop (suc n) init p i ps =
    let adopted =
      wakeup (some p) (proc_at init) (set ps i (record (at ps i) { parent = some init })) in
    let ps' = if is_index (at ps i).parent p then adopted else ps in
    reparent_loop n init p (i + 1) ps'

unfoldable pub reparent : ℕ → ℕ → ℕ → Table → Table
reparent nproc init p ps = reparent_loop nproc init p 0 ps

-- A null parent is the null channel.
abbrev pub chan_of : Option ℕ → Chan
chan_of none = null
chan_of (some i) = proc_at i

-- `exit` from `acquire(&wait_lock)` on, up to the call of `sched`, which does not return.
unfoldable pub exit_zombie : ℕ → ℕ → ℕ → ℕ → Table → Table
exit_zombie nproc init p status ps =
    let ps1 = reparent nproc init p ps in
    let ps2 = wakeup (some p) (chan_of (at ps1 p).parent) ps1 in
    set ps2 p (record (at ps2 p) { xstate = status; state = zombie })

-- The search of `wait`: the first child that is a zombie, or whether there is a child.
pub data Scan : Type 0 where
  found : ℕ → Scan
  havekids : Bool → Scan

unfoldable pub wait_scan : ℕ → ℕ → Bool → Table → Scan
wait_scan p i kids [] = havekids kids
wait_scan p i kids (pp ∷ ps) =
    if is_index pp.parent p
    then (if is_state pp.state zombie then found i else wait_scan p (i + 1) true ps)
    else wait_scan p (i + 1) kids ps

-- `sleep` up to its call of `sched`, and after it.
unfoldable pub sleep : ℕ → Chan → Table → Table
sleep p chan ps = set ps p (record (at ps p) { chan = chan; state = sleeping })

unfoldable pub sleep_end : ℕ → Table → Table
sleep_end p ps = set ps p (record (at ps p) { chan = null })

-- `yield` up to its call of `sched`
unfoldable pub yield : ℕ → Table → Table
yield p ps = set ps p (record (at ps p) { state = runnable })

-- The body of the loop of `scheduler` at entry `i`: whether it switches to the process.
unfoldable pub schedule : ℕ → Table → Bool × Table
schedule i ps =
    if is_state (at ps i).state runnable
    then (true, set ps i (record (at ps i) { state = running }))
    else (false, ps)

-- The loop of `allocproc` that looks for an entry.
unfoldable pub find_unused : ℕ → Table → Option ℕ
find_unused i [] = none
find_unused i (p ∷ ps) =
    let rest = find_unused (i + 1) ps in if is_state p.state unused then some i else rest
