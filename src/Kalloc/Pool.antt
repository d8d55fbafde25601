-- ===== src/Kalloc/Pool.antt =====
-- The superpage pool as a stack of superpages.
use csci5103_lab.Common.{
  NotIn, ℕ, zero, suc, ◌+◌, ◌-◌, ◌*◌, ◌/◌, ◌%◌, ◌≤◌, ◌<◌, ◌≡◌, ◌≢◌, ◌⊎◌, refl, ap, ◌∙◌, arith, List,
  [], ◌∷◌, All, false, ◌==◌, length, get_or, set, length-set, get_or-set_self, get_or-set_ne,
}
use mathlib.Core.Path.{ap₂}
use csci5103_lab.Riscv.{sub64, superpgsize, phys_stop}
use csci5103_lab.Memory.{fill}
use csci5103_lab.Machine.{Machine, Panic, Outcome, ok, panic}
use csci5103_lab.Kalloc.{nsuperpages, pool_start, super_loop, superinit, superalloc, superfree}
use csci5103_lab.Kalloc.FreeList.{Distinct, SameOutside, SameOutside-fill}

-- The first `n` slots of the array, the last of them on top.
unfoldable pub stack : List ℕ → ℕ → List ℕ
stack a zero = []
stack a (suc n) = get_or a n 0 ∷ stack a n

pub record IsSuper (p : ℕ) : Type 0 where
  pub aligned : p % superpgsize ≡ 0
  pub above : pool_start ≤ p
  pub below : p < phys_stop

pub record IsPool (s : Machine) (ps : List ℕ) : Type 0 where
  pub size : length s.superpages ≡ nsuperpages
  pub bound : s.nfree ≤ nsuperpages
  pub content : stack s.superpages s.nfree ≡ ps
  pub supers : All IsSuper ps
  pub distinct : Distinct ps

-- A write at or above the top leaves the stack.
stack-set : (a : List ℕ) (n i v : ℕ) → n ≤ i → stack (set a i v) n ≡ stack a n
unfolding stack
stack-set a zero i v h = refl
stack-set a (suc n) i v h =
    ap₂ ◌∷◌ (get_or-set_ne a {i = i} {j = n} v 0 (omega arith)) (stack-set a n i v (omega arith))

abbrev pub Popped : Machine → List ℕ → Outcome ℕ → Type 0
Popped s [] r = r ≡ ok 0 s
Popped s (p ∷ rest) r =
    (s' : Machine) × (r ≡ ok p s')
    × IsPool s' rest
    × SameOutside p superpgsize s.mem s'.mem
    × (s'.freelist ≡ s.freelist)

stack_of_empty : (a : List ℕ) (n : ℕ) → stack a n ≡ [] → n ≡ 0
unfolding stack
stack_of_empty a zero e = refl
stack_of_empty a (suc n) e = absurd (ground arith)

stack_of_cons :
    (a : List ℕ) (n p : ℕ) (rest : List ℕ)
    → stack a n ≡ p ∷ rest
    → (0 < n) × (get_or a (n - 1) 0 ≡ p) × (stack a (n - 1) ≡ rest)
unfolding stack
stack_of_cons a zero p rest e = absurd (ground arith)
stack_of_cons a (suc n) p rest e =
    let d : suc n - 1 ≡ n = omega arith in rw d (omega arith, ground arith, ground arith)

module _ {s : Machine} where
  -- `superalloc` on an empty pool returns 0 and changes nothing. Otherwise it returns the superpage
  -- on top, leaves the others in the pool, and writes to no byte outside of it.
  pub superalloc_lem : (ps : List ℕ) → IsPool s ps → Popped s ps (superalloc s)
  unfolding superalloc
  superalloc_lem [] v = rw (stack_of_empty s.superpages s.nfree v.content)
  superalloc_lem (p ∷ rest) v =
      let (pos, top, below) = stack_of_cons s.superpages s.nfree p rest v.content in
      (
        record s { nfree = s.nfree - 1; mem = fill s.mem p 5 superpgsize },
        rw (test pos, top),
        record {
          size = v.size;
          bound = omega (arith, v.bound);
          content = below;
          supers = v.supers.1;
          distinct = v.distinct.1;
        },
        SameOutside-fill s.mem p 5 superpgsize,
        refl,
      )
    where
      test : 0 < s.nfree → (s.nfree == 0) ≡ false
      test pos = ground arith

  -- `superfree` of a superpage that is not in the pool, while a slot is left, puts it on top.
  pub superfree_lem :
      (p : ℕ) (ps : List ℕ)
      → IsPool s ps
      → IsSuper p
      → NotIn p ps
      → s.nfree < nsuperpages
      → (s' : Machine) × (superfree p s ≡ ok tt s')
        × IsPool s' (p ∷ ps)
        × SameOutside p superpgsize s.mem s'.mem
        × (s'.freelist ≡ s.freelist)
  unfolding superfree stack
  superfree_lem p ps v sup out room = (
    record s {
      mem = fill s.mem p 1 superpgsize;
      superpages = set s.superpages s.nfree p;
      nfree = s.nfree + 1;
    },
    ground arith,
    record {
      size = length-set s.superpages s.nfree p ∙ v.size;
      bound = omega arith;
      content = pushed;
      supers = (sup, v.supers);
      distinct = (out, v.distinct);
    },
    SameOutside-fill s.mem p 1 superpgsize,
    refl,
  )
    where
      e : s.nfree + 1 ≡ suc s.nfree
      e = omega arith

      pushed : stack (set s.superpages s.nfree p) (s.nfree + 1) ≡ p ∷ ps
      pushed = rw e (
          ap₂ ◌∷◌ (get_or-set_self s.superpages s.nfree p 0 (omega (arith, v.size, room)))
            (stack-set s.superpages s.nfree s.nfree p (omega arith) ∙ v.content))

-- The three checks of `superfree`, in their order.
superfree_panics :
    (p : ℕ) (s : Machine)
    → (p % superpgsize ≢ 0 → superfree p s ≡ panic Panic.superfree_alignment)
      × (p % superpgsize ≡ 0
          → (p < pool_start) ⊎ (phys_stop ≤ p)
          → superfree p s ≡ panic Panic.superfree_range)
      × (IsSuper p → nsuperpages ≤ s.nfree → superfree p s ≡ panic Panic.superfree_overflow)
unfolding superfree
superfree_panics p s = (λ h. ground arith, λ h k. ground arith, λ h k. ground arith)

-- The superpages from slot `n - 1` down to slot 0
pub all_supers : ℕ → List ℕ
all_supers zero = []
all_supers (suc n) = (phys_stop - suc n * superpgsize) ∷ all_supers n

stack-push :
    (a : List ℕ) (n v : ℕ)
    → n < length a
    → stack a n ≡ all_supers n
    → v ≡ phys_stop - suc n * superpgsize
    → stack (set a n v) (suc n) ≡ all_supers (suc n)
unfolding stack all_supers
stack-push a n v room filled e =
    ap₂ ◌∷◌ (get_or-set_self a n v 0 room ∙ e) (stack-set a n n v (omega arith) ∙ filled)

super_loop-stack :
    (k n top : ℕ) (s : Machine)
    → n + k ≤ nsuperpages
    → length s.superpages ≡ nsuperpages
    → s.nfree ≡ n
    → top ≡ phys_stop - n * superpgsize
    → stack s.superpages n ≡ all_supers n
    → (length (super_loop k top s).superpages ≡ nsuperpages)
      × ((super_loop k top s).nfree ≡ n + k)
      × (stack (super_loop k top s).superpages (n + k) ≡ all_supers (n + k))
      × ((super_loop k top s).mem ≡ s.mem)
      × ((super_loop k top s).freelist ≡ s.freelist)
unfolding super_loop
super_loop-stack zero n top s room size count at filled =
    let e : n + 0 ≡ n = omega arith in rw e (size, count, filled, refl, refl)
super_loop-stack (suc k) n top s room size count at filled =
    let e : n + suc k ≡ suc n + k = omega arith in
    let v : ℕ = sub64 top superpgsize / superpgsize * superpgsize in
    let next : Machine = record s {
      superpages = set s.superpages s.nfree v;
      nfree = s.nfree + 1;
    } in
    rw e (
      super_loop-stack k (suc n) v next (omega arith) (length-set s.superpages s.nfree v ∙ size)
        (omega arith) (omega arith)
        (rw count (stack-push s.superpages n v (omega arith) filled (omega arith))))

all_supers-below :
    (n p : ℕ) → n ≤ nsuperpages → p + n * superpgsize < phys_stop → NotIn p (all_supers n)
unfolding all_supers
all_supers-below zero p h k = tt
all_supers-below (suc n) p h k = (omega arith, all_supers-below n p (omega arith) (omega arith))

all_supers-Distinct : (n : ℕ) → n ≤ nsuperpages → Distinct (all_supers n)
unfolding all_supers
all_supers-Distinct zero h = tt
all_supers-Distinct (suc n) h = (
  all_supers-below n (phys_stop - suc n * superpgsize) (omega arith) (omega arith),
  all_supers-Distinct n (omega arith),
)

all_supers-IsSuper : (n : ℕ) → n ≤ nsuperpages → All IsSuper (all_supers n)
unfolding all_supers
all_supers-IsSuper zero h = tt
all_supers-IsSuper (suc n) h = (omega arith, all_supers-IsSuper n (omega arith))

-- `superinit` fills the pool with the 60 aligned superpages below PHYSTOP, all different, whatever
-- the pool held before, and leaves memory and the free list alone.
pub superinit_lem :
    (s : Machine)
    → length s.superpages ≡ nsuperpages
    → IsPool (superinit s) (all_supers nsuperpages)
      × ((superinit s).mem ≡ s.mem)
      × ((superinit s).freelist ≡ s.freelist)
unfolding superinit stack all_supers
superinit_lem s size =
    let (len, count, filled, same, head) =
      super_loop-stack nsuperpages 0 phys_stop (record s { nfree = 0 }) (omega arith) size refl refl
        (start s.superpages) in
    (
      record {
        size = len;
        bound = omega (arith, count);
        content = ap (stack (superinit s).superpages) count ∙ filled;
        supers = all_supers-IsSuper nsuperpages (omega arith);
        distinct = all_supers-Distinct nsuperpages (omega arith);
      },
      same,
      head,
    )
  where
    start : (a : List ℕ) → stack a 0 ≡ all_supers 0
    start a = refl
