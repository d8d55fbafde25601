-- ===== src/Spinlock/Nesting.antt =====
-- `push_off` and `pop_off` of kernel/spinlock.c, matched.
use csci5103_lab.Common.{
  ℕ, zero, suc, ◌+◌, ◌-◌, ◌<◌, ◌≡◌, refl, arith, Bool, true, false, ◌&&◌, Option, none, some, ltb,
  ◌==◌, if◌then◌else◌, Bool-cases, inl, inr, sym, ◌∙◌, ap,
}
use csci5103_lab.Spinlock.{Cpu, push_off, pop_off}

-- Interrupts are off below a `push_off`.
abbrev pub IsCpu : Cpu → Type 0
IsCpu c = 0 < c.noff → c.intr ≡ false

abbrev pub pushes : ℕ → Cpu → Cpu
pushes zero c = c
pushes (suc k) c = pushes k (push_off c)

abbrev pub and_pop : Option Cpu → Option Cpu
and_pop none = none
and_pop (some c) = pop_off c

abbrev pub pops : ℕ → Cpu → Option Cpu
pops zero c = some c
pops (suc k) c = and_pop (pops k c)

-- The same for its caller: `intena` counts only below a `push_off`.
pub data Same (c : Cpu) : Option Cpu → Type 0 where
  same :
      {d : Cpu}
      → d.intr ≡ c.intr
      → d.noff ≡ c.noff
      → (0 < c.noff → d.intena ≡ c.intena)
      → Same c (some d)

pub push_off-IsCpu : (c : Cpu) → IsCpu (push_off c)
unfolding push_off
push_off-IsCpu c h = refl

positive : {n : ℕ} → 0 < n → (n == 0) ≡ false
positive h = ground arith

as_is : (b : Bool) → (if b then true else false) ≡ b
as_is true = refl
as_is false = refl

restored :
    (c d : Cpu)
    → IsCpu c
    → d.noff ≡ c.noff + 1
    → (0 < c.noff + 1 → d.intena ≡ (if c.noff == 0 then c.intr else c.intena))
    → (if d.noff - 1 == 0 && d.intena then true else false) ≡ c.intr
restored c d is depth saved = elim (Bool-cases (c.noff == 0)) [
  | inl e ↦
      let last : (d.noff - 1 == 0) ≡ true = ground (arith, depth, e) in
      let kept : d.intena ≡ c.intr =
        saved (omega arith) ∙ ap (λ t. if t then c.intr else c.intena) e in
      rw (last, kept) (as_is c.intr)
  | inr e ↦
      let later : (d.noff - 1 == 0) ≡ false = ground (arith, depth, e) in
      rw later (sym (is (ground (arith, e))))
]

-- A last `pop_off` undoes a first `push_off`.
pop_off-push_off :
    (c d : Cpu)
    → IsCpu c
    → d.intr ≡ (push_off c).intr
    → d.noff ≡ (push_off c).noff
    → (0 < (push_off c).noff → d.intena ≡ (push_off c).intena)
    → Same c (pop_off d)
unfolding push_off pop_off
pop_off-push_off c d is off depth saved =
    let some_depth : ltb d.noff 1 ≡ false = ground (arith, depth) in
    rw (off, some_depth)
      (same (restored c d is depth saved) (omega (arith, depth))
        (λ h. saved (omega arith) ∙ ap (λ t. if t then c.intr else c.intena) (positive h)))

and_pop-Same : (c : Cpu) (r : Option Cpu) → IsCpu c → Same (push_off c) r → Same c (and_pop r)
and_pop-Same c _ is (same {d} off depth saved) = pop_off-push_off c d is off depth saved

-- Where interrupts are off below a `push_off`, a row of `push_off`s and as many `pop_off`s leave depth and interrupts as they were,
-- and none panics.
pub pops-pushes : (k : ℕ) (c : Cpu) → IsCpu c → Same c (pops k (pushes k c))
pops-pushes zero c is = same refl refl (λ _. refl)
pops-pushes (suc k) c is =
    and_pop-Same c (pops k (pushes k (push_off c))) is
      (pops-pushes k (push_off c) (push_off-IsCpu c))
