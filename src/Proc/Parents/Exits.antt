-- ===== src/Proc/Parents/Exits.antt =====
-- `reparent` and `exit` of kernel/proc.c: an exiting process leaves its children to init.
use csci5103_lab.Common.{
  some-inj, get_or-set_ne, ℕ, ◌≡◌, ◌≢◌, inl, inr, refl, sym, ap, ◌∙◌, arith, some, set, length,
  if◌then◌else◌, Bool-cases,
}
use mathlib.Core.Path.{subst⁻¹}
use csci5103_lab.Proc.{no_proc, zombie, Proc, Table, at, is_index}
use csci5103_lab.Proc.Table.{wakeup, reparent, chan_of, exit_zombie}
use csci5103_lab.Proc.Parents.Entries.{live, IsLive, IsTable}
use csci5103_lab.Proc.Parents.Changes.{KeepsAll-IsTable, set-IsTable, wakeup-KeepsAll}
use csci5103_lab.Proc.Parents.Adoption.{is_index_self, Adopted, Adopted-Keeps, reparent-Adopted}

-- No entry has `p` as its parent once its children are given away.
childless : (init p : ℕ) (x x' : Proc) → p ≢ init → Adopted init p x x' → x'.parent ≢ some p
childless init p x x' n (a, _, _) e = elim (Bool-cases (is_index x.parent p)) [
  | inl mine ↦
      let moved : x'.parent ≡ some init = a ∙ ap (λ b. if b then some init else x.parent) mine in
      n (some-inj (sym e ∙ moved))
  | inr other ↦
      let stayed : x'.parent ≡ x.parent = a ∙ ap (λ b. if b then some init else x.parent) other in
      is_index_self x.parent p other (sym stayed ∙ e)
]

reparent-IsTable :
    (init n p : ℕ) (ps : Table)
    → IsTable init ps n
    → IsTable init (reparent (length ps) init p ps) n
reparent-IsTable init n p ps is = record {
  init_lives = (all init).2 is.init_lives;
  parents_live = λ j q e. elim (Bool-cases (is_index (at ps j).parent p)) [
    | inl mine ↦
        let moved : some q ≡ some init =
          sym e ∙ (all j).0 ∙ ap (λ b. if b then some init else (at ps j).parent) mine in
        (all q).2 (subst⁻¹ (IsLive ps) (some-inj moved) is.init_lives)
    | inr other ↦
        let stayed : (at ps j).parent ≡ some q =
          sym (ap (λ b. if b then some init else (at ps j).parent) other) ∙ sym (all j).0 ∙ e in
        (all q).2 (is.parents_live j q stayed)
  ];
  pids_differ =
      λ i j e z. is.pids_differ i j (sym (all i).1 ∙ e ∙ (all j).1) (λ z'. z ((all i).1 ∙ z'));
  pids_below = λ j. rw (all j).1 (is.pids_below j);
}
  where
    all : (j : ℕ) → Adopted init p (at ps j) (at (reparent (length ps) init p ps) j)
    all = reparent-Adopted init p ps

-- The table just before the exiting process becomes a zombie.
abbrev pub handed_over : ℕ → ℕ → Table → Table
handed_over init p ps =
    let ps1 = reparent (length ps) init p ps in wakeup (some p) (chan_of (at ps1 p).parent) ps1

pub handed_over-Adopted :
    (init p : ℕ) (ps : Table) (j : ℕ) → Adopted init p (at ps j) (at (handed_over init p ps) j)
handed_over-Adopted init p ps j =
    Adopted-Keeps init p (at ps j) (at (reparent (length ps) init p ps) j)
      (at (handed_over init p ps) j) (reparent-Adopted init p ps j)
      (wakeup-KeepsAll (some p) (chan_of (at (reparent (length ps) init p ps) p).parent)
        (reparent (length ps) init p ps) j)

pub exit_zombie-IsTable :
    (init n p status : ℕ) (ps : Table)
    → p ≢ init
    → IsTable init ps n
    → IsTable init (exit_zombie (length ps) init p status ps) n
unfolding exit_zombie
exit_zombie-IsTable init n p status ps ne is =
    set-IsTable init n n ps2 p z is2 (alive init ne is2.init_lives)
      (λ j q e. alive q (λ s. none_left j (e ∙ sym (ap some s))) (is2.parents_live j q e))
      (λ q e. alive q (λ s. none_left p (e ∙ sym (ap some s))) (is2.parents_live p q e))
      (inr (inl refl)) (omega arith) (is2.pids_below p)
  where
    ps2 : Table
    ps2 = handed_over init p ps

    z : Proc
    z = record (at ps2 p) { xstate = status; state = zombie }

    is2 : IsTable init ps2 n
    is2 =
        KeepsAll-IsTable init n (reparent (length ps) init p ps) ps2 (wakeup-KeepsAll (some p) _ _)
          (reparent-IsTable init n p ps is)

    none_left : (j : ℕ) → (at ps2 j).parent ≢ some p
    none_left j = childless init p (at ps j) (at ps2 j) ne (handed_over-Adopted init p ps j)

    alive : (q : ℕ) → p ≢ q → IsLive ps2 q → IsLive (set ps2 p z) q
    alive q n' l = ap (λ x. live x.state) (get_or-set_ne ps2 z no_proc n') ∙ l
