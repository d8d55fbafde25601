-- ===== src/Machine.antt =====
-- The state that kernel/kalloc.c and kernel/vm.c work on, and what a call of theirs can end in: a
-- result with the new state, a panic, or (a loop that was given too few rounds) no end.
-- `acquire` and `release` bracket each access to the two allocators, so such an access is one step.
use csci5103_lab.Common.{ℕ, List, Bool, if◌then◌else◌, ◌≡◌}
use csci5103_lab.Memory.{Memory, load64, store64, fill, copy}

-- `kmem` and `supermem` of kernel/kalloc.c, and physical memory
pub record Machine : Type 0 where
  pub mem : Memory
  pub freelist : ℕ
  pub superpages : List ℕ
  pub nfree : ℕ

-- The calls of `panic`, named after their message.
pub data Panic : Type 0 where
  kfree : Panic
  superfree_alignment superfree_range superfree_overflow : Panic
  walk superwalk : Panic
  mappages_va mappages_size_alignment mappages_size mappages_remap : Panic
  supermappages_va supermappages_remap : Panic
  uvmunmap_va uvmunmap_walk uvmunmap_not_mapped uvmunmap_not_leaf : Panic
  uvmfirst freewalk_leaf uvmcopy_walk uvmcopy_not_present uvmclear : Panic
  filedup init_exiting : Panic

pub data Outcome (A : Type 0) : Type 0 where
  ok : A → Machine → Outcome A
  panic : Panic → Outcome A
  hang : Outcome A

abbrev pub M : Type 0 → Type 0
M A = Machine → Outcome A

abbrev pub pure : {A : Type 0} → A → M A
pure a s = ok a s

abbrev pub and_then : {A B : Type 0} → Outcome A → (A → M B) → Outcome B
and_then (ok a s) f = f a s
and_then (panic p) f = panic p
and_then hang f = hang

infixl 5 ◌>>=◌ ◌>>◌
abbrev pub ◌>>=◌ : {A B : Type 0} → M A → (A → M B) → M B
◌>>=◌ m f s = and_then (m s) f

abbrev pub ◌>>◌ : {A B : Type 0} → M A → M B → M B
m >> k = m >>= λ _. k

-- `if(bad) panic(...)`
abbrev pub panic_if : Bool → Panic → M (Unit {0})
panic_if b p s = if b then panic p else ok tt s

-- `*(uint64 *)a`, `*(uint64 *)a = v`, `memset(a, c, n)` and `memmove(dst, src, n)`
abbrev pub read_pte : ℕ → M ℕ
read_pte a s = ok (load64 s.mem a) s

abbrev pub write_pte : ℕ → ℕ → M (Unit {0})
write_pte a v s = ok tt (record s { mem = store64 s.mem a v })

abbrev pub memset : ℕ → ℕ → ℕ → M (Unit {0})
memset a c n s = ok tt (record s { mem = fill s.mem a c n })

abbrev pub memmove : ℕ → ℕ → ℕ → M (Unit {0})
memmove dst src n s = ok tt (record s { mem = copy s.mem dst src n })

-- A chain goes on from a step that succeeds, and ends in one that panics.
module _ {A B : Type 0} (m : M A) (f : A → M B) {s : Machine} where
  pub bind_ok : {a : A} {s' : Machine} → m s ≡ ok a s' → (m >>= f) s ≡ f a s'
  bind_ok e = rw (e, ◌>>=◌)

  pub bind_panic : {p : Panic} → m s ≡ panic p → (m >>= f) s ≡ panic p
  bind_panic e = rw (e, ◌>>=◌)

-- What holds of the result, if there is one.
pub data Returns {A : Type 0} (Q : A → Type 0) : Outcome A → Type 0 where
  returned : {a : A} {s : Machine} → Q a → Returns Q (ok a s)
  panicked : {p : Panic} → Returns Q (panic p)
  hung : Returns Q hang

Returns-inv : {A : Type 0} {Q : A → Type 0} {a : A} {s : Machine} → Returns Q (ok a s) → Q a
Returns-inv (returned q) = q

pub Returns-ok :
    {A : Type 0} {Q : A → Type 0} {r : Outcome A} {a : A} {s : Machine}
    → r ≡ ok a s
    → Returns Q r
    → Q a
Returns-ok e q = Returns-inv (rw e at q)

pub Returns-any : {A : Type 0} (r : Outcome A) → Returns (λ _. Unit {0}) r
Returns-any (ok a s) = returned tt
Returns-any (panic p) = panicked
Returns-any hang = hung

Returns-and_then :
    {A B : Type 0} {Q : A → Type 0} {R : B → Type 0} (r : Outcome A) (f : A → M B)
    → Returns Q r
    → ((a : A) (s' : Machine) → Q a → Returns R (f a s'))
    → Returns R (and_then r f)
Returns-and_then (ok a s) f (returned q) next = next a s q
Returns-and_then (panic p) f q next = panicked
Returns-and_then hang f q next = hung

pub Returns-bind :
    {A B : Type 0} {Q : A → Type 0} {R : B → Type 0} (m : M A) (f : A → M B) (s : Machine)
    → Returns Q (m s)
    → ((a : A) (s' : Machine) → Q a → Returns R (f a s'))
    → Returns R ((m >>= f) s)
Returns-bind m f s q next = Returns-and_then (m s) f q next
