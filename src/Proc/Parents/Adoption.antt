-- ===== src/Proc/Parents/Adoption.antt =====
-- `reparent` of kernel/proc.c, entry by entry.
use csci5103_lab.Common.{
  some-inj, ltb, ltb-false_le, get_or-set_self, get_or-set_ne, ℕ, zero, suc, ◌+◌, ◌≤◌, ◌<◌, ◌≡◌,
  ◌≢◌, ◌⊎◌, inl, inr, refl, sym, ap, ◌∙◌, arith, Bool, true, false, Option, none, some, [], ◌∷◌,
  set, length, ◌==◌, if◌then◌else◌, Bool-cases, ==_iff,
}
use mathlib.Core.Path.{subst}
use csci5103_lab.Proc.{no_proc, proc_at, Proc, Table, at, is_index}
use csci5103_lab.Proc.Table.{wakeup, reparent_loop, reparent}
use csci5103_lab.Proc.Parents.Entries.{live}
use csci5103_lab.Proc.Parents.Changes.{Keeps, wakeup-KeepsAll}

is_index_iff : (o : Option ℕ) (i : ℕ) → is_index o i ≡ true → o ≡ some i
is_index_iff none i e = absurd (cc)
is_index_iff (some j) i e = ap some ((==_iff j i).0 e)

bools_differ : ¬ (true ≡ false)
bools_differ e = cc

pub is_index_self : (o : Option ℕ) (i : ℕ) → is_index o i ≡ false → o ≢ some i
is_index_self none i e q = absurd (cc)
is_index_self (some j) i e q = absurd (bools_differ (sym ((==_iff j i).1 (some-inj q)) ∙ e))

-- Entry `p` as `reparent` leaves it: a child of `p` is now a child of init.
abbrev pub Adopted : ℕ → ℕ → Proc → Proc → Type 0
Adopted init p x x' =
    (x'.parent ≡ (if is_index x.parent p then some init else x.parent))
    × (x'.pid ≡ x.pid)
    × (live x.state ≡ true → live x'.state ≡ true)

-- An entry with a parent is in the table.
pub parent-in_table : (ps : Table) (i q : ℕ) → (at ps i).parent ≡ some q → i < length ps
parent-in_table [] i q e = absurd (cc)
parent-in_table (x ∷ ps) zero q e = omega arith
parent-in_table (x ∷ ps) (suc i) q e = omega (arith, parent-in_table ps i q e)

pub Adopted-Keeps :
    (init p : ℕ) (x x' x'' : Proc) → Adopted init p x x' → Keeps x' x'' → Adopted init p x x''
Adopted-Keeps init p x x' x'' (a, b, c) (a', b', c') = (a' ∙ a, b' ∙ b, λ h. c' (c h))

Keeps-Adopted :
    (init p : ℕ) (x x' x'' : Proc) → Keeps x x' → Adopted init p x' x'' → Adopted init p x x''
Keeps-Adopted init p x x' x'' (a, b, c) (a', b', c') =
    (a' ∙ ap (λ o. if is_index o p then some init else o) a, b' ∙ b, λ h. c' (c h))

at-past : (ps : Table) (j : ℕ) → length ps ≤ j → at ps j ≡ no_proc
at-past [] j h = refl
at-past (x ∷ ps) zero h = absurd (omega arith)
at-past (x ∷ ps) (suc j) h = at-past ps j (omega arith)

-- One round: entry `i` is adopted, and the others keep.
abbrev round : ℕ → ℕ → ℕ → Table → Table
round init p i ps =
    if is_index (at ps i).parent p
    then wakeup (some p) (proc_at init) (set ps i (record (at ps i) { parent = some init }))
    else ps

module _ (init p i : ℕ) (ps : Table) where
  abbrev adoptee : Proc
  adoptee = record (at ps i) { parent = some init }

  abbrev adopted : Table
  adopted = wakeup (some p) (proc_at init) (set ps i adoptee)

  round-here :
      (b : Bool)
      → is_index (at ps i).parent p ≡ b
      → Adopted init p (at ps i) (at (if b then adopted else ps) i)
  round-here false other =
      let stays : (if is_index (at ps i).parent p then some init else (at ps i).parent)
          ≡ (at ps i).parent =
        rw other refl in
      (sym stays, refl, λ h. h)
  round-here true mine =
      let here : at (set ps i adoptee) i ≡ adoptee =
        get_or-set_self ps i adoptee no_proc (parent-in_table ps i p (is_index_iff _ p mine)) in
      let moves : (if is_index (at ps i).parent p then some init else (at ps i).parent)
          ≡ some init =
        rw mine refl in
      let (a, b, c) = wakeup-KeepsAll (some p) (proc_at init) (set ps i adoptee) i in
      (
        a ∙ ap (λ x. x.parent) here ∙ sym moves,
        b ∙ ap (λ x. x.pid) here,
        λ h. c (ap (λ x. live x.state) here ∙ h),
      )

  round-there : (b : Bool) (j : ℕ) → i ≢ j → Keeps (at ps j) (at (if b then adopted else ps) j)
  round-there false j n = (refl, refl, λ h. h)
  round-there true j n =
      let there : at (set ps i adoptee) j ≡ at ps j = get_or-set_ne ps adoptee no_proc n in
      let (a, b, c) = wakeup-KeepsAll (some p) (proc_at init) (set ps i adoptee) j in
      (
        a ∙ ap (λ x. x.parent) there,
        b ∙ ap (λ x. x.pid) there,
        λ h. c (ap (λ x. live x.state) there ∙ h),
      )

Keeps-trans : (x x' x'' : Proc) → Keeps x x' → Keeps x' x'' → Keeps x x''
Keeps-trans x x' x'' (a, b, c) (a', b', c') = (a' ∙ a, b' ∙ b, λ h. c' (c h))

pub reparent_loop-Adopted :
    (n init p i : ℕ) (ps : Table) (j : ℕ)
    → (i ≤ j → j < i + n → Adopted init p (at ps j) (at (reparent_loop n init p i ps) j))
      × ((j < i) ⊎ (i + n ≤ j) → Keeps (at ps j) (at (reparent_loop n init p i ps) j))
unfolding reparent_loop
reparent_loop-Adopted zero init p i ps j =
    (λ low high. absurd (omega arith), λ out. (refl, refl, λ h. h))
reparent_loop-Adopted (suc n) init p i ps j =
    let ps1 = round init p i ps in
    let last = at (reparent_loop n init p (i + 1) ps1) j in
    let test = is_index (at ps i).parent p in
    let (within, outside) = reparent_loop-Adopted n init p (i + 1) ps1 j in
    let there : i ≢ j → Keeps (at ps j) (at ps1 j) = λ e. round-there init p i ps test j e in
    (
      λ low high. elim (Bool-cases (i == j)) [
        | inl here ↦
            let this : i ≡ j = (==_iff i j).0 here in
            Adopted-Keeps init p (at ps j) (at ps1 j) last
              (subst (λ q. Adopted init p (at ps q) (at ps1 q)) this
                (round-here init p i ps test refl))
              (outside (inl (omega (arith, this))))
        | inr later ↦
            Keeps-Adopted init p (at ps j) (at ps1 j) last (there (λ e. ground arith))
              (within (ground (arith, later)) (omega arith))
      ],
      λ out.
          Keeps-trans (at ps j) (at ps1 j) last (there (λ e. omega (arith, e, out)))
            (outside (ground (arith, out))),
    )

pub reparent-Adopted :
    (init p : ℕ) (ps : Table) (j : ℕ)
    → Adopted init p (at ps j) (at (reparent (length ps) init p ps) j)
unfolding reparent
reparent-Adopted init p ps j = elim (Bool-cases (ltb j (length ps))) [
  | inl inside ↦
      (reparent_loop-Adopted (length ps) init p 0 ps j).0 (omega arith) (ground (arith, inside))
  | inr past ↦
      let (a, b, c) =
        (reparent_loop-Adopted (length ps) init p 0 ps j).1 (inr (ground (arith, past))) in
      let none_here : (at ps j).parent ≡ none =
        ap (λ x. x.parent) (at-past ps j (ltb-false_le j (length ps) past)) in
      let stays : (if is_index (at ps j).parent p then some init else (at ps j).parent)
          ≡ (at ps j).parent =
        ap (λ o. if is_index o p then some init else o) none_here ∙ sym none_here in
      (a ∙ sym stays, b, c)
]
