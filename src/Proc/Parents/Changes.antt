-- ===== src/Proc/Parents/Changes.antt =====
-- Changes of the table that keep its invariant: one entry set, `wakeup` and `kill`.
use csci5103_lab.Common.{
  ℕ, zero, suc, ◌+◌, ◌≤◌, ◌<◌, ◌≡◌, ◌≢◌, ◌⊎◌, inl, inr, refl, sym, ap, ◌∙◌, arith, true, ◌&&◌,
  Option, some, [], ◌∷◌, set, ◌==◌, if◌then◌else◌, Bool-cases,
}
use csci5103_lab.Proc.{
  ProcState, unused, used, sleeping, runnable, running, zombie, Chan, Proc, Table, at, is_state,
  same_chan, is_index,
}
use csci5103_lab.Proc.Table.{wake_one, wake_from, wakeup, kill_one, kill}
use csci5103_lab.Proc.Parents.Entries.{live, IsLive, IsTable, at-set, at-set_all}

-- The entry has the same parent and pid, and lives on if it was alive.
abbrev pub Keeps : Proc → Proc → Type 0
Keeps p p' =
    (p'.parent ≡ p.parent) × (p'.pid ≡ p.pid) × (live p.state ≡ true → live p'.state ≡ true)

abbrev pub KeepsAll : Table → Table → Type 0
KeepsAll ps ps' = (j : ℕ) → Keeps (at ps j) (at ps' j)

pub KeepsAll-trans : (ps ps1 ps2 : Table) → KeepsAll ps ps1 → KeepsAll ps1 ps2 → KeepsAll ps ps2
KeepsAll-trans ps ps1 ps2 f g j =
    let (a, b, c) = f j in let (a', b', c') = g j in (a' ∙ a, b' ∙ b, λ h. c' (c h))

pub KeepsAll-IsTable :
    (init n : ℕ) (ps ps' : Table) → KeepsAll ps ps' → IsTable init ps n → IsTable init ps' n
KeepsAll-IsTable init n ps ps' keeps is = record {
  init_lives = (keeps init).2 is.init_lives;
  parents_live = λ j q e. (keeps q).2 (is.parents_live j q (sym (keeps j).0 ∙ e));
  pids_differ = λ i j e z.
      is.pids_differ i j (sym (keeps i).1 ∙ e ∙ (keeps j).1) (λ z'. z ((keeps i).1 ∙ z'));
  pids_below = λ j. rw (keeps j).1 (is.pids_below j);
}

pub set-KeepsAll : (ps : Table) (i : ℕ) (p : Proc) → Keeps (at ps i) p → KeepsAll ps (set ps i p)
set-KeepsAll ps i p k = at-set_all (λ j x. Keeps (at ps j) x) ps i p k (λ j. (refl, refl, λ h. h))

-- Entry `i` set to `p`, which may be born (its pid is new) or freed (its pid is 0).
pub set-IsTable :
    (init n n' : ℕ) (ps : Table) (i : ℕ) (p : Proc)
    → IsTable init ps n
    → IsLive (set ps i p) init
    → ((j q : ℕ) → (at ps j).parent ≡ some q → IsLive (set ps i p) q)
    → ((q : ℕ) → p.parent ≡ some q → IsLive (set ps i p) q)
    → (p.pid ≡ 0) ⊎ (p.pid ≡ (at ps i).pid) ⊎ (n ≤ p.pid)
    → n ≤ n'
    → p.pid < n'
    → IsTable init (set ps i p) n'
set-IsTable init n n' ps i p is alive others own pid up below = record {
  init_lives = alive;
  parents_live = λ j q.
      at-set_all (λ _ x. x.parent ≡ some q → IsLive (set ps i p) q) ps i p (own q)
        (λ j'. others j' q) j;
  pids_differ = λ j j' e z. differ j j' (at-set ps i p j) (at-set ps i p j') e z;
  pids_below =
      at-set_all (λ _ x. x.pid < n') ps i p below (λ j. omega (arith, is.pids_below j, up));
}
  where
    -- No other entry has the pid of `p`, unless it is 0.
    other : (j : ℕ) → (at ps j).pid ≡ p.pid → p.pid ≢ 0 → i ≡ j
    other j e z = elim pid [
      | inl zero_pid ↦ absurd (z zero_pid)
      | inr (inl same) ↦ is.pids_differ i j (sym same ∙ sym e) (λ z'. z (same ∙ z'))
      | inr (inr new) ↦ absurd (omega (arith, is.pids_below j, e, new))
    ]

    differ :
        (j j' : ℕ)
        → ((i ≡ j) × (at (set ps i p) j ≡ p)) ⊎ (at (set ps i p) j ≡ at ps j)
        → ((i ≡ j') × (at (set ps i p) j' ≡ p)) ⊎ (at (set ps i p) j' ≡ at ps j')
        → (at (set ps i p) j).pid ≡ (at (set ps i p) j').pid
        → (at (set ps i p) j).pid ≢ 0
        → j ≡ j'
    differ j j' (inl (a, f)) (inl (b, g)) e z = sym a ∙ b
    differ j j' (inl (a, f)) (inr g) e z =
        sym a
        ∙ other j' (sym (ap (λ x. x.pid) g) ∙ sym e ∙ ap (λ x. x.pid) f)
            (λ z'. z (ap (λ x. x.pid) f ∙ z'))
    differ j j' (inr f) (inl (b, g)) e z =
        sym (
          other j (sym (ap (λ x. x.pid) f) ∙ e ∙ ap (λ x. x.pid) g)
            (λ z'. z (e ∙ ap (λ x. x.pid) g ∙ z')))
        ∙ b
    differ j j' (inr f) (inr g) e z =
        is.pids_differ j j' (sym (ap (λ x. x.pid) f) ∙ e ∙ ap (λ x. x.pid) g)
          (λ z'. z (ap (λ x. x.pid) f ∙ z'))

wake_one-Keeps : (chan : Chan) (p : Proc) → Keeps p (wake_one chan p)
unfolding wake_one
wake_one-Keeps chan p = elim (Bool-cases (is_state p.state sleeping && same_chan p.chan chan)) [
  | inl woken ↦ rw woken (refl, refl, λ h. refl)
  | inr left ↦ rw left (refl, refl, λ h. h)
]

wake_from-KeepsAll :
    (me : Option ℕ) (chan : Chan) (i : ℕ) (ps : Table) → KeepsAll ps (wake_from me chan i ps)
unfolding wake_from
wake_from-KeepsAll me chan i [] j = (refl, refl, λ h. h)
wake_from-KeepsAll me chan i (p ∷ ps) zero = elim (Bool-cases (is_index me i)) [
  | inl caller ↦ rw caller (refl, refl, λ h. h)
  | inr other ↦ rw other (wake_one-Keeps chan p)
]
wake_from-KeepsAll me chan i (p ∷ ps) (suc j) = wake_from-KeepsAll me chan (i + 1) ps j

pub wakeup-KeepsAll : (me : Option ℕ) (chan : Chan) (ps : Table) → KeepsAll ps (wakeup me chan ps)
unfolding wakeup
wakeup-KeepsAll me chan ps = wake_from-KeepsAll me chan 0 ps

kill_one-Keeps : (p : Proc) → Keeps p (kill_one p)
unfolding kill_one
kill_one-Keeps p = (refl, refl, λ h. lives p.state h)
  where
    lives :
        (st : ProcState)
        → live st ≡ true
        → live (if is_state st sleeping then runnable else st) ≡ true
    lives sleeping h = refl
    lives runnable h = refl
    lives running h = refl
    lives unused h = h
    lives used h = h
    lives zombie h = h

pub kill-KeepsAll : (pid : ℕ) (ps : Table) → KeepsAll ps (kill pid ps).1
unfolding kill
kill-KeepsAll pid [] j = (refl, refl, λ h. h)
kill-KeepsAll pid (p ∷ ps) zero = elim (Bool-cases (p.pid == pid)) [
  | inl this ↦ rw this (kill_one-Keeps p)
  | inr other ↦ rw other (refl, refl, λ h. h)
]
kill-KeepsAll pid (p ∷ ps) (suc j) = elim (Bool-cases (p.pid == pid)) [
  | inl this ↦ rw this (refl, refl, λ h. h)
  | inr other ↦ rw other (kill-KeepsAll pid ps j)
]
