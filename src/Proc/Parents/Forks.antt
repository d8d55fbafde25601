-- ===== src/Proc/Parents/Forks.antt =====
-- `fork` and `wait` of kernel/proc.c keep the invariant of the table.
use csci5103_lab.Common.{
  ℕ, suc, ◌+◌, ◌^◌, ◌≤◌, ◌<◌, ◌≡◌, inl, inr, refl, sym, ap, ◌∙◌, arith, Bool, true, false, not,
  ◌||◌, Option, none, some, List, [], ◌∷◌, set, Bool-cases,
}
use mathlib.Core.Path.{subst}
use csci5103_lab.Machine.{Machine, M, pure, Returns, Returns-any, Returns-bind, returned, panicked}
use csci5103_lab.File.{File}
use csci5103_lab.Vm.User.{uvmcopy}
use csci5103_lab.Vm.Map.{Status, success, failure}
use csci5103_lab.Proc.{
  ProcState, unused, used, sleeping, runnable, running, zombie, Table, at, is_state, is_index,
}
use csci5103_lab.Proc.Table.{Scan, found, havekids, wait_scan, killed}
use csci5103_lab.Proc.Life.{
  Kernel, dup_files, freeproc, allocproc, fork_share, fork_copied, fork_into, fork_copy,
  wait_result, wait_round,
}
use csci5103_lab.Proc.Parents.Entries.{live, IsTable}
use csci5103_lab.Proc.Parents.Changes.{KeepsAll-IsTable, set-KeepsAll}
use csci5103_lab.Proc.Parents.Births.{
  freed-IsTable, freeproc-Returns, set-dead, Allocated, allocproc-Returns,
}

zombie-dead : (st : ProcState) → is_state st zombie ≡ true → live st ≡ false
zombie-dead zombie e = refl
zombie-dead unused e = refl
zombie-dead used e = refl
zombie-dead sleeping e = absurd (cc)
zombie-dead runnable e = absurd (cc)
zombie-dead running e = absurd (cc)

module _ (kernel_end trampoline : ℕ) where
  module _ (init c : ℕ) (small : c < 2 ^ 31) where
    fork_share-Returns :
        (me i : ℕ) (k : Kernel) (o : Option (List (Option ℕ) × List File)) (s : Machine)
        → IsTable init k.table k.nextpid
        → live (at k.table i).state ≡ false
        → k.nextpid ≤ c
        → Returns (Allocated init c) (fork_share kernel_end trampoline me i k o s)
    unfolding fork_share
    fork_share-Returns me i k none s is dead room = panicked
    fork_share-Returns me i k (some (ofile, files)) s is dead room =
        let p = at k.table me in
        let child = record (at k.table i) { sz = p.sz; ofile = ofile; cwd = p.cwd } in
        returned (
          KeepsAll-IsTable init k.nextpid k.table (set k.table i child)
              (set-KeepsAll k.table i child (refl, refl, λ h. h)) is,
          set-dead k.table i child dead dead,
          room,
        )

    fork_copied-Returns :
        (me i : ℕ) (k : Kernel) (r : Status) (s : Machine)
        → IsTable init k.table k.nextpid
        → live (at k.table i).state ≡ false
        → k.nextpid ≤ c
        → Returns (Allocated init c) (fork_copied kernel_end trampoline me i k r s)
    unfolding fork_copied
    fork_copied-Returns me i k failure s is dead room =
        Returns-bind (freeproc kernel_end trampoline i k.table) _ s
          (freeproc-Returns kernel_end trampoline i k.table s)
          (λ ps s' e. returned (
            subst (λ t. IsTable init t k.nextpid) (sym e)
                (freed-IsTable init k.nextpid k.table i is dead),
            tt,
            room,
          ))
    fork_copied-Returns me i k success s is dead room =
        fork_share-Returns me i k (dup_files (at k.table me).ofile (at k.table i).ofile k.files) _
          is dead room

    forked-Returns :
        (me : ℕ) (r : Option ℕ × Kernel) (s : Machine)
        → Allocated init c r
        → Returns (Allocated init c) (
            (elim r.0 as (λ _. M (Option ℕ × Kernel)) [
              | none ↦ pure (none, r.1)
              | some i ↦ fork_into kernel_end trampoline me i r.1
            ])
              s)
    unfolding fork_into
    forked-Returns me (none, k) s (is, _, room) = returned (is, tt, room)
    forked-Returns me (some i, k) s (is, dead, room) =
        let copy =
          uvmcopy kernel_end (at k.table me).pagetable (at k.table i).pagetable
            (at k.table me).sz in
        Returns-bind copy _ s (Returns-any (copy s))
          (λ r s1 _. fork_copied-Returns me i k r s1 is dead room)

    pub fork_copy-Returns :
        (me : ℕ) (k : Kernel) (s : Machine)
        → IsTable init k.table k.nextpid
        → k.nextpid + 1 ≤ c
        → Returns (Allocated init c) (fork_copy kernel_end trampoline me k s)
    unfolding fork_copy
    fork_copy-Returns me k s is room =
        Returns-bind (allocproc kernel_end trampoline k) _ s
          (allocproc-Returns kernel_end trampoline init c small k s is room)
          (λ r s1 a. forked-Returns me r s1 a)

  module _ (init : ℕ) where
    found-inj : {i j : ℕ} → found i ≡ found j → i ≡ j
    found-inj e = cc

    -- `wait` frees only a zombie.
    wait_scan-dead :
        (p b i : ℕ) (kids : Bool) (ps : Table)
        → wait_scan p b kids ps ≡ found i
        → (j : ℕ) × (i ≡ b + j) × (live (at ps j).state ≡ false)
    unfolding wait_scan
    wait_scan-dead p b i kids [] e = absurd (cc)
    wait_scan-dead p b i kids (x ∷ ps) e = elim (Bool-cases (is_index x.parent p)) [
      | inr other ↦
          let rest : wait_scan p (b + 1) kids ps ≡ found i = rw other at e in
          let (j, at_j, dead) = wait_scan-dead p (b + 1) i kids ps rest in
          (suc j, omega (arith, at_j), dead)
      | inl mine ↦ elim (Bool-cases (is_state x.state zombie)) [
        | inr alive ↦
            let rest : wait_scan p (b + 1) true ps ≡ found i = rw (mine, alive) at e in
            let (j, at_j, dead) = wait_scan-dead p (b + 1) i true ps rest in
            (suc j, omega (arith, at_j), dead)
        | inl here ↦
            let this : found b ≡ found i = rw (mine, here) at e in
            (0, omega (arith, found-inj this), zombie-dead x.state here)
      ]
    ]

    waited-Returns :
        (me n : ℕ) (refused : Bool) (ps : Table) (r : Scan) (s : Machine)
        → wait_scan me 0 false ps ≡ r
        → IsTable init ps n
        → Returns (λ w. IsTable init w.1 n) (wait_result kernel_end trampoline me refused ps r s)
    unfolding wait_result
    waited-Returns me n true ps (found i) s e is = returned is
    waited-Returns me n false ps (found i) s e is =
        let (j, same, dead) = wait_scan-dead me 0 i false ps e in
        Returns-bind (freeproc kernel_end trampoline i ps) _ s
          (freeproc-Returns kernel_end trampoline i ps s)
          (λ ps' s' f. returned (
            subst (λ t. IsTable init t n) (sym f)
              (freed-IsTable init n ps i is
                (ap (λ q. live (at ps q).state) (omega (arith, same) ∙ refl) ∙ dead))))
    waited-Returns me n refused ps (havekids kids) s e is =
        elim (Bool-cases (not kids || killed me ps)) [
          | inl stop ↦ rw stop (returned is)
          | inr wait_on ↦ rw wait_on (returned is)
        ]

    pub wait_round-Returns :
        (me n : ℕ) (refused : Bool) (ps : Table) (s : Machine)
        → IsTable init ps n
        → Returns (λ w. IsTable init w.1 n) (wait_round kernel_end trampoline me refused ps s)
    unfolding wait_round
    wait_round-Returns me n refused ps s is =
        waited-Returns me n refused ps (wait_scan me 0 false ps) s refl is
