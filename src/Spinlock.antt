-- ===== src/Spinlock.antt =====
-- kernel/spinlock.c. The swap, the stores to `lk->cpu` and the unlock are steps of their own, but the two loads
-- of `holding` are one step, in `release` together with the store `lk->cpu = 0` behind them: whether the CPU holds
-- the lock does not change between them, since no other CPU stores its own number or takes it away. What a CPU does
-- to itself (its interrupt flag and `struct cpu`) runs together with the next access. `none` is a panic, but where a
-- test spins. `noff` is signed and stays far below 2 ^ 31.
pub mod Nesting
pub mod Steps
pub mod Locked
pub mod Exclusion
mod Tests
use csci5103_lab.Common.{
  ℕ, ◌+◌, ◌-◌, Bool, true, false, not, ◌&&◌, Option, none, some, ltb, ◌==◌, if◌then◌else◌,
}

-- `noff` and `intena` of `struct cpu`, and whether the CPU takes interrupts
pub record Cpu : Type 0 where
  pub intr : Bool
  pub noff : ℕ
  pub intena : Bool

pub record Spinlock : Type 0 where
  pub locked : Bool
  pub cpu : Option ℕ

abbrev pub initlock : Spinlock
initlock = record { locked = false; cpu = none }

abbrev pub is_cpu : Option ℕ → ℕ → Bool
is_cpu none i = false
is_cpu (some j) i = j == i

unfoldable pub holding : ℕ → Spinlock → Bool
holding i lk = lk.locked && is_cpu lk.cpu i

unfoldable pub push_off : Cpu → Cpu
push_off c = record {
  intr = false;
  intena = if c.noff == 0 then c.intr else c.intena;
  noff = c.noff + 1;
}

-- Panics "pop_off - interruptible" and "pop_off".
unfoldable pub pop_off : Cpu → Option Cpu
pop_off c =
    if c.intr
    then none
    else if ltb c.noff 1
    then none
    else some (record c {
      noff = c.noff - 1;
      intr = if c.noff - 1 == 0 && c.intena then true else c.intr;
    })

-- `acquire` up to its loop. Panic "acquire".
unfoldable pub acquire_begin : ℕ → Spinlock → Cpu → Option Cpu
acquire_begin i lk c = if holding i lk then none else some (push_off c)

-- A round of the loop: `none` if the lock was set already.
unfoldable pub acquire_swap : Spinlock → Option Spinlock
acquire_swap lk = if lk.locked then none else some (record lk { locked = true })

unfoldable pub acquire_end : ℕ → Spinlock → Spinlock
acquire_end i lk = record lk { cpu = some i }

-- `release` up to `lk->cpu = 0`. Panic "release".
unfoldable pub release_begin : ℕ → Spinlock → Option Spinlock
release_begin i lk = if not (holding i lk) then none else some (record lk { cpu = none })

-- Before the `pop_off` at the end
unfoldable pub release_unlock : Spinlock → Spinlock
release_unlock lk = record lk { locked = false }
