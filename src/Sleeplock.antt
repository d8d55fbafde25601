-- ===== src/Sleeplock.antt =====
-- kernel/sleeplock.c. The spinlock `lk->lk` makes a round of the loop in `acquiresleep`, and each
-- other function, one step. `wakeup` is on the process table.
use csci5103_lab.Common.{ℕ, Bool, true, false, ◌&&◌, Option, none, some, ◌==◌, if◌then◌else◌}

pub record Sleeplock : Type 0 where
  pub locked : Bool
  pub pid : ℕ

abbrev pub initsleeplock : Sleeplock
initsleeplock = record { locked = false; pid = 0 }

-- `none`: the process sleeps.
abbrev pub acquiresleep_round : ℕ → Sleeplock → Option Sleeplock
acquiresleep_round pid lk = if lk.locked then none else some (record { locked = true; pid = pid })

abbrev pub releasesleep : Sleeplock → Sleeplock
releasesleep lk = record { locked = false; pid = 0 }

abbrev pub holdingsleep : ℕ → Sleeplock → Bool
holdingsleep pid lk = lk.locked && (lk.pid == pid)
