-- ===== src/Proc.antt =====
-- kernel/proc.c: the process table. A process is its index in the table, and a null `struct proc *` is
-- `none`. `p->name`, which only `procdump` reads, the saved kernel context and the locks are left out:
-- each function below holds `p->lock` around its accesses to an entry.
pub mod Table
pub mod Life
pub mod Steps
pub mod Parents
pub mod Wakeups
mod Tests
use csci5103_lab.Common.{ℕ, Bool, true, false, Option, none, some, List, [], get_or, ◌==◌}

-- `enum procstate`
pub data ProcState : Type 0 where
  unused used sleeping runnable running zombie : ProcState

-- A sleeping channel is the address of an object: an entry of the process table, or another one.
pub data Chan : Type 0 where
  null : Chan
  proc_at address : ℕ → Chan

pub record Proc : Type 0 where
  pub state : ProcState
  pub chan : Chan
  pub killed : Bool
  pub xstate : ℕ
  pub pid : ℕ
  pub parent : Option ℕ
  pub sz : ℕ
  pub pagetable : ℕ
  pub trapframe : ℕ
  pub ofile : List (Option ℕ)
  pub cwd : Option ℕ

-- An entry as the kernel starts, and for a read past the table.
abbrev pub no_proc : Proc
no_proc = record {
  state = unused;
  chan = null;
  killed = false;
  xstate = 0;
  pid = 0;
  parent = none;
  sz = 0;
  pagetable = 0;
  trapframe = 0;
  ofile = [];
  cwd = none;
}

abbrev pub Table : Type 0
Table = List Proc

abbrev pub at : Table → ℕ → Proc
at ps i = get_or ps i no_proc

abbrev pub is_state : ProcState → ProcState → Bool
is_state unused unused = true
is_state used used = true
is_state sleeping sleeping = true
is_state runnable runnable = true
is_state running running = true
is_state zombie zombie = true
is_state _ _ = false

abbrev pub same_chan : Chan → Chan → Bool
same_chan null null = true
same_chan (proc_at i) (proc_at j) = i == j
same_chan (address a) (address b) = a == b
same_chan _ _ = false

abbrev pub is_index : Option ℕ → ℕ → Bool
is_index none i = false
is_index (some j) i = j == i
