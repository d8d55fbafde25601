-- ===== src/Proc/Parents/Births.antt =====
-- `freeproc` and `allocproc` of kernel/proc.c keep the invariant of the table.
use csci5103_lab.Common.{
  some-inj, ℕ, suc, ◌+◌, ◌%◌, ◌^◌, ◌≤◌, ◌<◌, ◌≡◌, inl, inr, refl, sym, ap, ◌∙◌, arith, true, false,
  Option, none, some, [], ◌∷◌, set, ◌==◌, if◌then◌else◌, Bool-cases,
}
use mathlib.Core.Path.{subst}
use csci5103_lab.Machine.{Machine, M, pure, ◌>>=◌, Returns, Returns-any, Returns-bind, returned}
use csci5103_lab.Kalloc.{kalloc, kfree}
use csci5103_lab.Proc.{
  ProcState, unused, used, sleeping, runnable, running, zombie, Proc, Table, at, is_state,
}
use csci5103_lab.Proc.Table.{find_unused}
use csci5103_lab.Proc.Life.{
  Kernel, proc_pagetable, proc_freepagetable, freed, freeproc, alloc_at, allocproc,
}
use csci5103_lab.Proc.Parents.Entries.{live, IsLive, IsTable, at-set, set-IsLive}
use csci5103_lab.Proc.Parents.Changes.{set-IsTable}
use csci5103_lab.Proc.Parents.Adoption.{}

-- An entry that is not alive, freed.
pub freed-IsTable :
    (init n : ℕ) (ps : Table) (i : ℕ)
    → IsTable init ps n
    → live (at ps i).state ≡ false
    → IsTable init (set ps i (freed (at ps i))) n
freed-IsTable init n ps i is dead =
    set-IsTable init n n ps i (freed (at ps i)) is (stays init is.init_lives)
      (λ j q e. stays q (is.parents_live j q e)) (λ q e. absurd (cc)) (inl refl) (omega arith)
      (omega (arith, is.pids_below 0))
  where
    stays : (q : ℕ) → IsLive ps q → IsLive (set ps i (freed (at ps i))) q
    stays = set-IsLive ps i (freed (at ps i)) (λ h. absurd (cc))

-- An entry that is not alive, taken with the next pid.
born-IsTable :
    (init n : ℕ) (ps : Table) (i : ℕ) (p : Proc)
    → IsTable init ps n
    → live (at ps i).state ≡ false
    → p.parent ≡ (at ps i).parent
    → p.pid ≡ n
    → IsTable init (set ps i p) (n + 1)
born-IsTable init n ps i p is dead same new =
    set-IsTable init n (n + 1) ps i p is (stays init is.init_lives)
      (λ j q e. stays q (is.parents_live j q e))
      (λ q e. stays q (is.parents_live i q (sym same ∙ e))) (inr (inr (omega (arith, new))))
      (omega arith) (omega (arith, new))
  where
    stays : (q : ℕ) → IsLive ps q → IsLive (set ps i p) q
    stays = set-IsLive ps i p (λ h. absurd (cc))

unused-dead : (st : ProcState) → is_state st unused ≡ true → live st ≡ false
unused-dead unused e = refl
unused-dead used e = refl
unused-dead sleeping e = absurd (cc)
unused-dead runnable e = absurd (cc)
unused-dead running e = absurd (cc)
unused-dead zombie e = refl

find_unused-dead :
    (b i : ℕ) (ps : Table)
    → find_unused b ps ≡ some i
    → (j : ℕ) × (i ≡ b + j) × (live (at ps j).state ≡ false)
unfolding find_unused
find_unused-dead b i [] e = absurd (cc)
find_unused-dead b i (p ∷ ps) e = elim (Bool-cases (is_state p.state unused)) [
  | inl here ↦
      let first : some b ≡ some i =
        sym (ap (λ t. if t then some b else find_unused (b + 1) ps) here) ∙ e in
      (0, omega (arith, some-inj first), unused-dead p.state here)
  | inr later ↦
      let rest : find_unused (b + 1) ps ≡ some i =
        sym (ap (λ t. if t then some b else find_unused (b + 1) ps) later) ∙ e in
      let (j, at_j, dead) = find_unused-dead (b + 1) i ps rest in (suc j, omega (arith, at_j), dead)
]

-- The entry that a call returns is not alive yet.
abbrev pub Fresh : Option ℕ → Table → Type 0
Fresh none ps = Unit
Fresh (some i) ps = live (at ps i).state ≡ false

pub set-dead :
    (ps : Table) (i : ℕ) (p : Proc)
    → live (at ps i).state ≡ false
    → live p.state ≡ false
    → live (at (set ps i p) i).state ≡ false
set-dead ps i p old new = elim (at-set ps i p i) [
  | inl (_, e) ↦ ap (λ x. live x.state) e ∙ new
  | inr e ↦ ap (λ x. live x.state) e ∙ old
]

-- `c` bounds `nextpid` after the call.
abbrev pub Allocated : ℕ → ℕ → Option ℕ × Kernel → Type 0
Allocated init c r = IsTable init r.1.table r.1.nextpid × Fresh r.0 r.1.table × (r.1.nextpid ≤ c)

-- The next `nextpid`, and one that does not wrap
abbrev pub next_pid : ℕ → ℕ
next_pid n = (n + 1) % 2 ^ 32

no_wrap : (n c : ℕ) → n + 1 ≤ c → c < 2 ^ 31 → n + 1 ≡ next_pid n
no_wrap n c h l = omega (arith, h, l)

below_bound : (n c : ℕ) → n + 1 ≤ c → c < 2 ^ 31 → next_pid n ≤ c
below_bound n c h l = omega (arith, h, l)

module _ (kernel_end trampoline : ℕ) where
  -- Whatever the memory does, `freeproc` resets the entry.
  pub freeproc-Returns :
      (i : ℕ) (ps : Table) (s : Machine)
      → Returns (λ ps'. ps' ≡ set ps i (freed (at ps i))) (freeproc kernel_end trampoline i ps s)
  unfolding freeproc
  freeproc-Returns i ps s =
      let p = at ps i in
      let m1 : M (Unit {0}) = if p.trapframe == 0 then pure tt else kfree kernel_end p.trapframe in
      let m2 : M (Unit {0}) =
        if p.pagetable == 0
        then pure tt
        else proc_freepagetable kernel_end trampoline p.pagetable p.sz in
      Returns-bind m1 _ s (Returns-any _)
        (λ _ s1 _. Returns-bind m2 _ s1 (Returns-any _) (λ _ s2 _. returned refl))

  module _ (init c : ℕ) (small : c < 2 ^ 31) where
    -- A failure after the entry was taken.
    give_up-Returns :
        (k : Kernel) (i : ℕ) (p : Proc) (s : Machine)
        → IsTable init (set k.table i p) (next_pid k.nextpid)
        → k.nextpid + 1 ≤ c
        → live (at (set k.table i p) i).state ≡ false
        → Returns (Allocated init c) (
            (freeproc kernel_end trampoline i (set k.table i p) >>= λ ps.
            pure (none, record k { table = ps; nextpid = next_pid k.nextpid }))
              s)
    give_up-Returns k i p s is room dead =
        Returns-bind (freeproc kernel_end trampoline i (set k.table i p)) _ s
          (freeproc-Returns i (set k.table i p) s)
          (λ ps s' e. returned (
            subst (λ t. IsTable init t (next_pid k.nextpid)) (sym e)
                (freed-IsTable init (next_pid k.nextpid) (set k.table i p) i is dead),
            tt,
            below_bound k.nextpid c room small,
          ))

    alloc_at-Returns :
        (i : ℕ) (k : Kernel) (s : Machine)
        → IsTable init k.table k.nextpid
        → k.nextpid + 1 ≤ c
        → live (at k.table i).state ≡ false
        → Returns (Allocated init c) (alloc_at kernel_end trampoline i k s)
    unfolding alloc_at
    alloc_at-Returns i k s is room dead =
        let taken = λ (tf pt : ℕ). record (at k.table i) {
          pid = k.nextpid;
          state = used;
          trapframe = tf;
          pagetable = pt;
        } in
        let born = λ (tf pt : ℕ).
          subst (λ n. IsTable init (set k.table i (taken tf pt)) n) (no_wrap k.nextpid c room small)
            (born-IsTable init k.nextpid k.table i (taken tf pt) is dead refl refl) in
        let unborn = λ (tf pt : ℕ). set-dead k.table i (taken tf pt) dead refl in
        let old = (at k.table i).pagetable in
        Returns-bind kalloc _ s (Returns-any (kalloc s)) (λ tf s1 _. elim (Bool-cases (tf == 0)) [
          | inl null ↦
              rw null (give_up-Returns k i (taken tf old) s1 (born tf old) room (unborn tf old))
          | inr page ↦ rw page (
              Returns-bind (proc_pagetable kernel_end trampoline tf) _ s1
                (Returns-any (proc_pagetable kernel_end trampoline tf s1))
                (λ pt s2 _. elim (Bool-cases (pt == 0)) [
                  | inl null ↦
                      rw null
                        (give_up-Returns k i (taken tf pt) s2 (born tf pt) room (unborn tf pt))
                  | inr table ↦
                      rw table
                        (returned (born tf pt, unborn tf pt, below_bound k.nextpid c room small))
                ]))
        ])

    pub allocproc-Returns :
        (k : Kernel) (s : Machine)
        → IsTable init k.table k.nextpid
        → k.nextpid + 1 ≤ c
        → Returns (Allocated init c) (allocproc kernel_end trampoline k s)
    unfolding allocproc
    allocproc-Returns k s is room = go (find_unused 0 k.table) refl
      where
        go :
            (o : Option ℕ)
            → find_unused 0 k.table ≡ o
            → Returns (Allocated init c) (
                (elim o as (λ _. M (Option ℕ × Kernel)) [
                  | none ↦ pure (none, k)
                  | some i ↦ alloc_at kernel_end trampoline i k
                ])
                  s)
        go none e = returned (is, tt, omega (arith, room))
        go (some i) e =
            let (j, same, dead) = find_unused-dead 0 i k.table e in
            alloc_at-Returns i k s is room
              (ap (λ q. live (at k.table q).state) (omega (arith, same) ∙ refl) ∙ dead)
