-- ===== src/Spinlock/Steps.antt =====
-- CPUs that use a lock of kernel/spinlock.c, in any interleaving. A CPU holds other locks as well:
-- `outer` counts its other `push_off`s.
use csci5103_lab.Common.{put, ℕ, ◌+◌, ◌-◌, ◌<◌, ◌≡◌, Bool, true, false, some}
use csci5103_lab.Spinlock.{
  Cpu, Spinlock, initlock, push_off, pop_off, acquire_begin, acquire_swap, acquire_end,
  release_begin, release_unlock,
}

-- Where a CPU is in `acquire` and `release`.
pub data Position : Type 0 where
  outside spinning swapped inside releasing popping : Position

-- The lock is set for this CPU.
abbrev pub is_critical : Position → Bool
is_critical outside = false
is_critical spinning = false
is_critical swapped = true
is_critical inside = true
is_critical releasing = true
is_critical popping = false

pub record State : Type 0 where
  pub lk : Spinlock
  pub cpus : ℕ → Cpu
  pub outer : ℕ → ℕ
  pub place : ℕ → Position

pub data Step (s : State) : State → Type 0 where
  begins :
      (i : ℕ) {c : Cpu}
      → s.place i ≡ outside
      → acquire_begin i s.lk (s.cpus i) ≡ some c
      → Step s (record s { cpus = put s.cpus i c; place = put s.place i spinning })
  swaps :
      (i : ℕ) {lk : Spinlock}
      → s.place i ≡ spinning
      → acquire_swap s.lk ≡ some lk
      → Step s (record s { lk = lk; place = put s.place i swapped })
  enters :
      (i : ℕ)
      → s.place i ≡ swapped
      → Step s (record s { lk = acquire_end i s.lk; place = put s.place i inside })
  leaves :
      (i : ℕ) {lk : Spinlock}
      → s.place i ≡ inside
      → release_begin i s.lk ≡ some lk
      → Step s (record s { lk = lk; place = put s.place i releasing })
  unlocks :
      (i : ℕ)
      → s.place i ≡ releasing
      → Step s (record s { lk = release_unlock s.lk; place = put s.place i popping })
  pops :
      (i : ℕ) {c : Cpu}
      → s.place i ≡ popping
      → pop_off (s.cpus i) ≡ some c
      → Step s (record s { cpus = put s.cpus i c; place = put s.place i outside })
  nests :
      (i : ℕ)
      → Step s (record s {
        cpus = put s.cpus i (push_off (s.cpus i));
        outer = put s.outer i (s.outer i + 1);
      })
  unnests :
      (i : ℕ) {c : Cpu}
      → 0 < s.outer i
      → pop_off (s.cpus i) ≡ some c
      → Step s (record s { cpus = put s.cpus i c; outer = put s.outer i (s.outer i - 1) })

pub data Reach : State → Type 0 where
  start :
      (cpus : ℕ → Cpu)
      → ((i : ℕ) → (cpus i).noff ≡ 0)
      → Reach (record { lk = initlock; cpus = cpus; outer = λ i. 0; place = λ i. outside })
  next : {s t : State} → Reach s → Step s t → Reach t
