-- ===== src/Proc/Wakeups.antt =====
-- `wakeup` and `exit` of kernel/proc.c: who is awake afterwards.
use csci5103_lab.Common.{
  inl, inr, ℕ, zero, suc, ◌+◌, ◌≡◌, ◌≢◌, refl, sym, ap, ◌∙◌, arith, Bool, false, ◌&&◌, Option, some,
  [], ◌∷◌, set, length, get_or-set_self, get_or-set_ne, ◌==◌, if◌then◌else◌, Bool-cases,
}
use csci5103_lab.Proc.{
  sleeping, runnable, zombie, Chan, proc_at, Proc, no_proc, Table, at, is_state, same_chan,
  is_index,
}
use csci5103_lab.Proc.Table.{wake_one, wake_from, wakeup, reparent, chan_of, exit_zombie}
use csci5103_lab.Proc.Parents.{
  at-set_all, parent-in_table, handed_over, handed_over-Adopted, reparent-Adopted,
}

-- A process that waits on the channel.
abbrev pub is_waiting : Chan → Proc → Bool
is_waiting chan p = is_state p.state sleeping && same_chan p.chan chan

shift : (b j : ℕ) → b + 1 + j ≡ b + suc j
shift b j = omega arith

wake_from_lem :
    (me : Option ℕ) (chan : Chan) (b : ℕ) (ps : Table) (j : ℕ)
    → at (wake_from me chan b ps) j
      ≡ (if is_index me (b + j) then at ps j else wake_one chan (at ps j))
unfolding wake_from wake_one
wake_from_lem me chan b [] j = elim (Bool-cases (is_index me (b + j))) [
  | inl e ↦ rw e refl
  | inr e ↦ rw e refl
]
wake_from_lem me chan b (p ∷ ps) zero =
    let b_zero : b ≡ b + 0 = omega arith in
    ap (λ i. if is_index me i then p else wake_one chan p) b_zero
wake_from_lem me chan b (p ∷ ps) (suc j) =
    wake_from_lem me chan (b + 1) ps j
    ∙ ap (λ i. if is_index me i then at ps j else wake_one chan (at ps j)) (shift b j)

wakeup_at :
    (me : Option ℕ) (chan : Chan) (ps : Table) (j : ℕ)
    → at (wake_from me chan 0 ps) j ≡ (if is_index me j then at ps j else wake_one chan (at ps j))
wakeup_at me chan ps j =
    let none_added : 0 + j ≡ j = omega arith in
    wake_from_lem me chan 0 ps j
    ∙ ap (λ i. if is_index me i then at ps j else wake_one chan (at ps j)) none_added

-- `wakeup` makes the processes that wait on the channel runnable, but for the caller, and changes
-- nothing else.
pub wakeup_lem :
    (me : Option ℕ) (chan : Chan) (ps : Table) (j : ℕ)
    → at (wakeup me chan ps) j ≡ (
        if is_index me j
        then at ps j
        else if is_waiting chan (at ps j)
        then record (at ps j) { state = runnable }
        else at ps j)
unfolding wakeup wake_one
wakeup_lem me chan ps j = wakeup_at me chan ps j

wake_one-awake : (chan : Chan) (p : Proc) → is_waiting chan (wake_one chan p) ≡ false
unfolding wake_one
wake_one-awake chan p = elim (Bool-cases (is_waiting chan p)) [
  | inl waits ↦ rw waits refl
  | inr awake ↦ rw (awake, awake) refl
]

awake_after :
    (me : ℕ) (chan chan' : Chan) (ps : Table) (j : ℕ)
    → me ≢ j
    → chan ≡ chan'
    → is_waiting chan' (at (wakeup (some me) chan ps) j) ≡ false
unfolding wakeup
awake_after me chan chan' ps j n e =
    let other : (me == j) ≡ false = ground (arith, n) in
    let woken : at (wake_from (some me) chan' 0 ps) j ≡ wake_one chan' (at ps j) =
      wakeup_at (some me) chan' ps j
      ∙ ap (λ b. if b then at ps j else wake_one chan' (at ps j)) other in
    ap (λ c. is_waiting chan' (at (wake_from (some me) c 0 ps) j)) e
    ∙ ap (is_waiting chan') woken
    ∙ wake_one-awake chan' (at ps j)

-- `exit` of a process `p` other than init, with a parent other than itself: the children of `p` are
-- init's, all other processes keep their parents, `p` is a zombie with its status, and its parent does
-- not sleep in `wait` any more.
pub exit_zombie_lem :
    (init p q status : ℕ) (ps : Table)
    → p ≢ init
    → (at ps p).parent ≡ some q
    → q ≢ p
    → let ps' = exit_zombie (length ps) init p status ps in
      ((j : ℕ)
        → (at ps' j).parent ≡ (if is_index (at ps j).parent p then some init else (at ps j).parent))
      × ((at ps' p).state ≡ zombie)
      × ((at ps' p).xstate ≡ status)
      × (is_waiting (proc_at q) (at ps' q) ≡ false)
unfolding exit_zombie
exit_zombie_lem init p q status ps ne up other = (
  λ j.
      at-set_all
        (λ i x. x.parent ≡ (if is_index (at ps i).parent p then some init else (at ps i).parent))
        ps2 p z (handed_over-Adopted init p ps p).0 (λ i. (handed_over-Adopted init p ps i).0) j,
  ap (λ x. x.state) here,
  ap (λ x. x.xstate) here,
  ap (λ x. is_waiting (proc_at q) x) there
      ∙ awake_after p (chan_of (at ps1 p).parent) (proc_at q) ps1 q (λ e. other (sym e))
          (ap chan_of ((reparent-Adopted init p ps p).0 ∙ parent_kept)),
)
  where
    ps1 : Table
    ps1 = reparent (length ps) init p ps

    ps2 : Table
    ps2 = handed_over init p ps

    z : Proc
    z = record (at ps2 p) { xstate = status; state = zombie }

    parent_kept : (if is_index (at ps p).parent p then some init else (at ps p).parent) ≡ some q
    parent_kept =
        let not_own : (q == p) ≡ false = ground (arith, other) in
        ap (λ o. if is_index o p then some init else o) up
        ∙ ap (λ b. if b then some init else some q) not_own

    here : at (set ps2 p z) p ≡ z
    here =
        get_or-set_self ps2 p z no_proc
          (parent-in_table ps2 p q ((handed_over-Adopted init p ps p).0 ∙ parent_kept))

    there : at (set ps2 p z) q ≡ at ps2 q
    there = get_or-set_ne ps2 z no_proc (λ e. other (sym e))
