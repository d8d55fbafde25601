-- ===== src/Spinlock/Tests.antt =====
-- The theorems about kernel/spinlock.c at concrete states.
use csci5103_lab.Common.{refl, true, false, put}
use csci5103_lab.Spinlock.{Cpu, initlock, push_off, holding, acquire_begin}
use csci5103_lab.Spinlock.Steps.{State, begins, Reach, start, next, outside, spinning}
use csci5103_lab.Spinlock.Exclusion.{Excludes, Reach-Excludes}

abbrev idle : Cpu
idle = record { intr = true; noff = 0; intena = false }

abbrev asked : Cpu
asked = record { intr = false; noff = 1; intena = true }

abbrev idle_state : State
idle_state = record { lk = initlock; cpus = λ i. idle; outer = λ i. 0; place = λ i. outside }

abbrev asked_state : State
asked_state = record {
  lk = initlock;
  cpus = put (λ i. idle) 3 asked;
  outer = λ i. 0;
  place = put (λ i. outside) 3 spinning;
}

asked_state-Reach : Reach asked_state
unfolding acquire_begin holding push_off
asked_state-Reach = next (start (λ i. idle) (λ i. refl)) (begins 3 refl refl)

Reach-Excludes_example : Excludes asked_state
Reach-Excludes_example = Reach-Excludes asked_state asked_state-Reach
