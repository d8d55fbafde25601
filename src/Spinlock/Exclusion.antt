-- ===== src/Spinlock/Exclusion.antt =====
-- The lock of kernel/spinlock.c excludes, and its checks do not fail.
use mathlib.Core.Path.{subst}
use csci5103_lab.Common.{
  ℕ, ◌+◌, ◌-◌, ◌<◌, ◌≡◌, ◌≢◌, refl, sym, ◌∙◌, arith, Bool, true, false, not, ◌&&◌, Option, none,
  some, ltb, if◌then◌else◌, put, passed, some-inj,
}
use csci5103_lab.Spinlock.{
  Cpu, Spinlock, is_cpu, holding, push_off, pop_off, acquire_begin, acquire_swap, release_begin,
}
use csci5103_lab.Spinlock.Nesting.{IsCpu, push_off-IsCpu}
use csci5103_lab.Spinlock.Steps.{
  Position, outside, spinning, swapped, inside, releasing, popping, is_critical, State, Step,
  begins, swaps, enters, leaves, unlocks, pops, nests, unnests, Reach, start, next,
}
use csci5103_lab.Spinlock.Locked.{
  own, has, Locked, begins-Locked, swaps-Locked, enters-Locked, leaves-Locked, unlocks-Locked,
  pops-Locked, nests-Locked, pop_off-inv, acquire_begin-inv, push_off-noff, critical_at, named_at,
  depth_at,
}

Step-Locked : (s t : State) → Step s t → Locked s → Locked t
unfolding acquire_swap release_begin
Step-Locked s t (begins i {c} e b) (h, is) =
    begins-Locked s h is i c e (acquire_begin-inv i s.lk (s.cpus i) c b)
Step-Locked s t (swaps i {lk} e b) (h, is) =
    let free = passed s.lk.locked b in
    subst (λ l. Locked (record s { lk = l; place = put s.place i swapped })) (some-inj free.1)
      (swaps-Locked s h is i e free.0)
Step-Locked s t (enters i e) (h, is) = enters-Locked s h is i e
Step-Locked s t (leaves i {lk} e b) (h, is) =
    subst (λ l. Locked (record s { lk = l; place = put s.place i releasing }))
      (some-inj (passed (not (holding i s.lk)) b).1) (leaves-Locked s h is i e)
Step-Locked s t (unlocks i e) (h, is) = unlocks-Locked s h is i e
Step-Locked s t (pops i {c} e b) (h, is) = pops-Locked s h is i c e b
Step-Locked s t (nests i) (h, is) =
    nests-Locked s h is i (push_off (s.cpus i)) (s.outer i + 1)
      (push_off-noff (s.cpus i) ∙ omega (arith, is.depth i)) (push_off-IsCpu (s.cpus i))
Step-Locked s t (unnests i {c} some_outer b) (h, is) =
    let less = pop_off-inv (s.cpus i) c b in
    nests-Locked s h is i c (s.outer i - 1) (omega (arith, less.0, is.depth i, some_outer)) less.2

Reach-Locked : (s : State) → Reach s → Locked s
Reach-Locked s (start cpus flat) = (
  none,
  record {
    critical = λ i. refl;
    set = refl;
    named = λ i. refl;
    depth = λ i. flat i;
    off = λ i h. absurd (omega (arith, h, flat i));
  },
)
Reach-Locked s (next {s = r} reach step) = Step-Locked r s step (Reach-Locked r reach)

pub record Excludes (s : State) : Type 0 where
  pub alone : (i j : ℕ) → is_critical (s.place i) ≡ true → is_critical (s.place j) ≡ true → i ≡ j
  pub acquires : (i : ℕ) → s.place i ≡ outside → acquire_begin i s.lk (s.cpus i) ≢ none
  pub releases : (i : ℕ) → s.place i ≡ inside → release_begin i s.lk ≢ none
  pub pops_own : (i : ℕ) → s.place i ≡ popping → pop_off (s.cpus i) ≢ none
  pub pops_other : (i : ℕ) → 0 < s.outer i → pop_off (s.cpus i) ≢ none
  pub silent : (i : ℕ) → s.place i ≢ outside → (s.cpus i).intr ≡ false

one_holder : (h : Option ℕ) (i j : ℕ) → is_cpu h i ≡ true → is_cpu h j ≡ true → i ≡ j
one_holder none i j e f = absurd cc
one_holder (some k) i j e f = ground (arith, e, f)

not_stopped :
    {A : Type 0} (t : Bool) (r : Option A) → t ≡ false → r ≢ none → (if t then none else r) ≢ none
not_stopped true r e n z = absurd cc
not_stopped false r e n z = n z

some_result : {A : Type 0} (x : A) → some x ≢ none
some_result x z = cc

and_false : (a : Bool) {b : Bool} → b ≡ false → (a && b) ≡ false
and_false true e = e
and_false false e = refl

has_holder : (h : Option ℕ) (i : ℕ) → is_cpu h i ≡ true → has h ≡ true
has_holder none i e = absurd cc
has_holder (some k) i e = refl

own_positive : (p : Position) → p ≢ outside → 0 < own p
own_positive outside n = absurd (n refl)
own_positive spinning n = omega arith
own_positive swapped n = omega arith
own_positive inside n = omega arith
own_positive releasing n = omega arith
own_positive popping n = omega arith

not_holding :
    (i : ℕ) (lk : Spinlock) (c : Cpu) → is_cpu lk.cpu i ≡ false → acquire_begin i lk c ≢ none
unfolding acquire_begin holding
not_holding i lk c e z =
    not_stopped (lk.locked && is_cpu lk.cpu i) _ (and_false lk.locked e) (some_result _) z

is_holding :
    (i : ℕ) (lk : Spinlock) → lk.locked ≡ true → is_cpu lk.cpu i ≡ true → release_begin i lk ≢ none
unfolding release_begin holding
is_holding i lk e f z =
    not_stopped (not (lk.locked && is_cpu lk.cpu i)) _ (rw (e, f) refl) (some_result _) z

pops_some : (c : Cpu) → IsCpu c → 0 < c.noff → pop_off c ≢ none
unfolding pop_off
pops_some c is h z =
    let deep : ltb c.noff 1 ≡ false = ground (arith, h) in
    not_stopped c.intr _ (is h) (not_stopped (ltb c.noff 1) _ deep (some_result _)) z

-- In every state that the steps of any number of CPUs reach from an unset lock: at most one CPU is
-- between the swap that sets the lock and the store that clears it; `acquire` by a CPU outside,
-- `release` by one inside and a matched `pop_off` do not panic; and no CPU inside `acquire`,
-- `release` or between them takes interrupts.
pub Reach-Excludes : (s : State) → Reach s → Excludes s
Reach-Excludes s reach =
    let locked = Reach-Locked s reach in
    let h = locked.0 in
    let is = locked.1 in
    record {
      alone = λ i j p q. one_holder h i j (sym (is.critical i) ∙ p) (sym (is.critical j) ∙ q);
      acquires = λ i e. not_holding i s.lk (s.cpus i) (named_at s h is i e);
      releases = λ i e.
          is_holding i s.lk (is.set ∙ has_holder h i (sym (critical_at s h is i e)))
            (named_at s h is i e);
      pops_own = λ i e. pops_some (s.cpus i) (is.off i) (omega (arith, depth_at s h is i e));
      pops_other = λ i o. pops_some (s.cpus i) (is.off i) (omega (arith, o, is.depth i));
      silent = λ i n. is.off i (omega (arith, is.depth i, own_positive (s.place i) n));
    }
