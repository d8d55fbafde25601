-- ===== src/Spinlock/Locked.antt =====
-- What holds of the lock of kernel/spinlock.c and of its CPUs after each step.
use mathlib.Core.Path.{subst}
use csci5103_lab.Common.{
  passed, ℕ, ◌+◌, ◌-◌, ◌<◌, ◌≡◌, ◌≢◌, refl, sym, ap, ◌∙◌, arith, Bool, true, false, Option, none,
  some, ◌==◌, ltb, put, pointwise, pointwise_both, some-inj, ==_refl, ==_false,
}
use csci5103_lab.Spinlock.{
  Cpu, Spinlock, is_cpu, holding, push_off, pop_off, acquire_begin, acquire_end, release_unlock,
}
use csci5103_lab.Spinlock.Nesting.{IsCpu, push_off-IsCpu}
use csci5103_lab.Spinlock.Steps.{
  Position, outside, spinning, swapped, inside, releasing, popping, is_critical, State,
}

abbrev pub is_inside : Position → Bool
is_inside inside = true
is_inside _ = false

-- The `push_off` of this lock
abbrev pub own : Position → ℕ
own outside = 0
own _ = 1

abbrev pub has : Option ℕ → Bool
has none = false
has (some i) = true

-- The lock is set for the holder, and its field `cpu` names the one that is inside.
pub record IsLocked (s : State) (holder : Option ℕ) : Type 0 where
  pub critical : (i : ℕ) → is_critical (s.place i) ≡ is_cpu holder i
  pub set : s.lk.locked ≡ has holder
  pub named : (i : ℕ) → is_cpu s.lk.cpu i ≡ is_inside (s.place i)
  pub depth : (i : ℕ) → (s.cpus i).noff ≡ s.outer i + own (s.place i)
  pub off : (i : ℕ) → IsCpu (s.cpus i)

pub is_cpu_other : (h : Option ℕ) (i j : ℕ) → is_cpu h i ≡ true → j ≢ i → is_cpu h j ≡ false
is_cpu_other none i j e n = absurd cc
is_cpu_other (some k) i j e n = ground (arith, e, n)

deeper : (n : ℕ) → 0 < n - 1 → (n - 1 == 0) ≡ false
deeper n h = ground arith

module _ (s : State) (holder : Option ℕ) (is : IsLocked s holder) (i : ℕ) where
  pub critical_at : {p : Position} → s.place i ≡ p → is_critical p ≡ is_cpu holder i
  critical_at e = ap is_critical (sym e) ∙ is.critical i

  pub named_at : {p : Position} → s.place i ≡ p → is_cpu s.lk.cpu i ≡ is_inside p
  named_at e = is.named i ∙ ap is_inside e

  pub depth_at : {p : Position} → s.place i ≡ p → (s.cpus i).noff ≡ s.outer i + own p
  depth_at e = is.depth i ∙ ap (λ p. s.outer i + own p) e

  -- A CPU that goes on where nothing else changes
  move_critical :
      (q : Position) {p : Position}
      → s.place i ≡ p
      → is_critical q ≡ is_critical p
      → (j : ℕ) → is_critical (put s.place i q j) ≡ is_cpu holder j
  move_critical q {p} e c =
      pointwise (λ j x. is_critical x ≡ is_cpu holder j) i s.place q (c ∙ critical_at e)
        (λ j _. is.critical j)

  move_named :
      (q : Position) {p : Position}
      → s.place i ≡ p
      → is_inside q ≡ is_inside p
      → (j : ℕ) → is_cpu s.lk.cpu j ≡ is_inside (put s.place i q j)
  move_named q {p} e c =
      pointwise (λ j x. is_cpu s.lk.cpu j ≡ is_inside x) i s.place q (named_at e ∙ sym c)
        (λ j _. is.named j)

  move_depth :
      (q : Position) {p : Position}
      → s.place i ≡ p
      → own q ≡ own p
      → (j : ℕ) → (s.cpus j).noff ≡ s.outer j + own (put s.place i q j)
  move_depth q {p} e c =
      pointwise (λ j x. (s.cpus j).noff ≡ s.outer j + own x) i s.place q
        (depth_at e ∙ ap (λ k. s.outer i + k) (sym c)) (λ j _. is.depth j)

  -- A CPU's own state and the depth change together.
  change_off : (c : Cpu) → IsCpu c → (j : ℕ) → IsCpu (put s.cpus i c j)
  change_off c h = pointwise (λ j x. IsCpu x) i s.cpus c h (λ j _. is.off j)

  -- Others are not where the lock is set.
  others_out :
      {p : Position}
      → s.place i ≡ p
      → is_critical p ≡ true
      → (j : ℕ) → j ≢ i
      → is_critical (s.place j) ≡ false
  others_out e c j n = is.critical j ∙ is_cpu_other holder i j (sym (critical_at e) ∙ c) n

pub acquire_begin-inv :
    (i : ℕ) (lk : Spinlock) (c d : Cpu) → acquire_begin i lk c ≡ some d → push_off c ≡ d
unfolding acquire_begin
acquire_begin-inv i lk c d e = some-inj (passed (holding i lk) e).1

-- One level less, and interrupts are off below it.
pub pop_off-inv : (c d : Cpu) → pop_off c ≡ some d → (d.noff ≡ c.noff - 1) × (0 < c.noff) × IsCpu d
unfolding pop_off
pop_off-inv c d e =
    let first = passed c.intr e in
    let second = passed (ltb c.noff 1) first.1 in
    let same = some-inj second.1 in
    let was_off : c.intr ≡ false = first.0 in
    (
      ap (λ (x : Cpu). x.noff) (sym same),
      ground (arith, second.0),
      subst IsCpu same (λ h. rw (deeper c.noff h, was_off) refl),
    )

pub push_off-noff : (c : Cpu) → (push_off c).noff ≡ c.noff + 1
unfolding push_off
push_off-noff c = refl

no_holder : (h : Option ℕ) (j : ℕ) → has h ≡ false → is_cpu h j ≡ false
no_holder none j e = refl
no_holder (some k) j e = absurd cc

not_inside : (p : Position) → is_critical p ≡ false → is_inside p ≡ false
not_inside outside e = refl
not_inside spinning e = refl
not_inside swapped e = refl
not_inside inside e = e
not_inside releasing e = refl
not_inside popping e = refl

-- Someone's lock state after a step
abbrev pub Locked : State → Type 0
Locked s = (holder : Option ℕ) × IsLocked s holder

module _ (s : State) (holder : Option ℕ) (is : IsLocked s holder) (i : ℕ) where
  pub begins-Locked :
      (c : Cpu)
      → s.place i ≡ outside
      → push_off (s.cpus i) ≡ c
      → Locked (record s { cpus = put s.cpus i c; place = put s.place i spinning })
  begins-Locked c e same =
      let more : c.noff ≡ s.outer i + 0 + 1 =
        ap (λ (x : Cpu). x.noff) (sym same)
        ∙ push_off-noff (s.cpus i)
        ∙ ap (λ k. k + 1) (depth_at s holder is i e) in
      (
        holder,
        record {
          critical = move_critical s holder is i spinning e refl;
          set = is.set;
          named = move_named s holder is i spinning e refl;
          depth =
              pointwise_both (λ j x p. x.noff ≡ s.outer j + own p) i s.cpus c s.place spinning
                (omega (arith, more)) (λ j _. is.depth j);
          off = change_off s holder is i c (subst IsCpu same (push_off-IsCpu (s.cpus i)));
        },
      )

  pub swaps-Locked :
      s.place i ≡ spinning
      → s.lk.locked ≡ false
      → Locked (record s { lk = record s.lk { locked = true }; place = put s.place i swapped })
  swaps-Locked e free = (
    some i,
    record {
      critical =
          pointwise (λ j p. is_critical p ≡ is_cpu (some i) j) i s.place swapped (sym (==_refl i))
            (λ j n.
              is.critical j
              ∙ no_holder holder j (sym is.set ∙ free)
              ∙ sym (==_false i j (λ z. n (sym z))));
      set = refl;
      named = move_named s holder is i swapped e refl;
      depth = move_depth s holder is i swapped e refl;
      off = is.off;
    },
  )

  pub enters-Locked :
      s.place i ≡ swapped
      → Locked (record s { lk = acquire_end i s.lk; place = put s.place i inside })
  unfolding acquire_end
  enters-Locked e = (
    holder,
    record {
      critical = move_critical s holder is i inside e refl;
      set = is.set;
      named =
          pointwise (λ j p. is_cpu (some i) j ≡ is_inside p) i s.place inside (==_refl i)
            (λ j n.
              ==_false i j (λ z. n (sym z))
              ∙ sym (not_inside (s.place j) (others_out s holder is i e refl j n)));
      depth = move_depth s holder is i inside e refl;
      off = is.off;
    },
  )

  pub leaves-Locked :
      s.place i ≡ inside
      → Locked (record s { lk = record s.lk { cpu = none }; place = put s.place i releasing })
  leaves-Locked e = (
    holder,
    record {
      critical = move_critical s holder is i releasing e refl;
      set = is.set;
      named =
          pointwise (λ j p. false ≡ is_inside p) i s.place releasing refl
            (λ j n. sym (not_inside (s.place j) (others_out s holder is i e refl j n)));
      depth = move_depth s holder is i releasing e refl;
      off = is.off;
    },
  )

  pub unlocks-Locked :
      s.place i ≡ releasing
      → Locked (record s { lk = release_unlock s.lk; place = put s.place i popping })
  unfolding release_unlock
  unlocks-Locked e = (
    none,
    record {
      critical =
          pointwise (λ j p. is_critical p ≡ false) i s.place popping refl
            (others_out s holder is i e refl);
      set = refl;
      named = move_named s holder is i popping e refl;
      depth = move_depth s holder is i popping e refl;
      off = is.off;
    },
  )

  pub pops-Locked :
      (c : Cpu)
      → s.place i ≡ popping
      → pop_off (s.cpus i) ≡ some c
      → Locked (record s { cpus = put s.cpus i c; place = put s.place i outside })
  pops-Locked c e popped =
      let less = pop_off-inv (s.cpus i) c popped in
      (
        holder,
        record {
          critical = move_critical s holder is i outside e refl;
          set = is.set;
          named = move_named s holder is i outside e refl;
          depth =
              pointwise_both (λ j x p. x.noff ≡ s.outer j + own p) i s.cpus c s.place outside
                (omega (arith, less.0, depth_at s holder is i e)) (λ j _. is.depth j);
          off = change_off s holder is i c less.2;
        },
      )

  -- A `push_off` or `pop_off` for another lock
  pub nests-Locked :
      (c : Cpu) (n : ℕ)
      → c.noff ≡ n + own (s.place i)
      → IsCpu c
      → Locked (record s { cpus = put s.cpus i c; outer = put s.outer i n })
  nests-Locked c n e off = (
    holder,
    record {
      critical = is.critical;
      set = is.set;
      named = is.named;
      depth =
          pointwise_both (λ j x k. x.noff ≡ k + own (s.place j)) i s.cpus c s.outer n e
            (λ j _. is.depth j);
      off = change_off s holder is i c off;
    },
  )
