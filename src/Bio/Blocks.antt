-- ===== src/Bio/Blocks.antt =====
-- What holds after each step of kernel/bio.c: a block has one buffer, and a buffer that is in use keeps
-- its block.
use mathlib.Core.Path.{subst}
use csci5103_lab.Common.{
  passed, pointwise, pointwise_both, some-inj, ℕ, zero, suc, ◌+◌, ◌-◌, ◌%◌, ◌^◌, ◌<◌, ◌≡◌, ◌≢◌, ◌↔◌,
  refl, sym, ◌∙◌, arith, false, not, Option, some, ◌∷◌, ◌==◌, ltb, if◌then◌else◌, Bool-cases,
  ==_iff, inl, inr,
}
use csci5103_lab.Sleeplock.{holdingsleep}
use csci5103_lab.Bio.{
  nbuf, Buf, Cache, update, Disk, bget, bget_with, binit, binit_loop, bread_fill, brelse_unlock,
  brelse_drop, bpin, bunpin, add_ref, drop_ref, recycle, unlink,
}
use csci5103_lab.Bio.Lru.{
  count, count-unlink, IsBlock, Found, one, missing, find_cached-Found, Unused, find_unused-Unused,
}
use csci5103_lab.Bio.Steps.{
  Use, Step, gets, locks, fills, unlocks, drops, pins, unpins, Reach, start, next, plus, minus,
}

pub record IsCache (c : Cache) (held : ℕ → ℕ) : Type 0 where
  pub listed : (b : ℕ) → count b c.order ≡ (if ltb b nbuf then 1 else 0)
  pub counted : (b : ℕ) → (c.bufs b).refcnt ≡ held b
  pub small : (b : ℕ) → held b < 2 ^ 32
  pub unique :
      (i j : ℕ)
      → i < nbuf
      → j < nbuf
      → (c.bufs i).dev ≢ 0
      → (c.bufs i).dev ≡ (c.bufs j).dev
      → (c.bufs i).blockno ≡ (c.bufs j).blockno
      → i ≡ j

-- Buffers with the same block and list, and counts to match.
record Like (c c' : Cache) : Type 0 where
  same_dev : (j : ℕ) → (c'.bufs j).dev ≡ (c.bufs j).dev
  same_blockno : (j : ℕ) → (c'.bufs j).blockno ≡ (c.bufs j).blockno
  same_count : (j : ℕ) → count j c'.order ≡ count j c.order

Like-IsCache :
    (c c' : Cache) (held held' : ℕ → ℕ)
    → Like c c'
    → ((b : ℕ) → (c'.bufs b).refcnt ≡ held' b)
    → ((b : ℕ) → held' b < 2 ^ 32)
    → IsCache c held
    → IsCache c' held'
Like-IsCache c c' held held' like counts smalls is = record {
  listed = λ b. like.same_count b ∙ is.listed b;
  counted = counts;
  small = smalls;
  unique = λ i j hi hj nz d n.
      is.unique i j hi hj (λ z. nz (like.same_dev i ∙ z))
        (sym (like.same_dev i) ∙ d ∙ like.same_dev j)
        (sym (like.same_blockno i) ∙ n ∙ like.same_blockno j);
}

-- A change of one buffer that leaves its block
update-Like :
    (c : Cache) (b : ℕ) (x : Buf)
    → x.dev ≡ (c.bufs b).dev
    → x.blockno ≡ (c.bufs b).blockno
    → Like c (update c b x)
update-Like c b x d n = record {
  same_dev = pointwise (λ j y. y.dev ≡ (c.bufs j).dev) b c.bufs x d (λ j _. refl);
  same_blockno = pointwise (λ j y. y.blockno ≡ (c.bufs j).blockno) b c.bufs x n (λ j _. refl);
  same_count = λ j. refl;
}

module _ (c : Cache) (b : ℕ) (x : Buf) (held : ℕ → ℕ) (n : ℕ) where
  counted_update :
      x.refcnt ≡ n
      → ((j : ℕ) → (c.bufs j).refcnt ≡ held j)
      → (j : ℕ) → ((update c b x).bufs j).refcnt ≡ (if j == b then n else held j)
  counted_update e counts =
      pointwise_both (λ j y k. y.refcnt ≡ k) b c.bufs x held n e (λ j _. counts j)

  small_update :
      n < 2 ^ 32 → ((j : ℕ) → held j < 2 ^ 32) → (j : ℕ) → (if j == b then n else held j) < 2 ^ 32
  small_update h smalls = pointwise_both (λ j _ k. k < 2 ^ 32) b c.bufs x held n h (λ j _. smalls j)

-- A change that leaves block and count of every buffer.
keep-IsCache :
    (c : Cache) (held : ℕ → ℕ) (b : ℕ) (x : Buf)
    → x.dev ≡ (c.bufs b).dev
    → x.blockno ≡ (c.bufs b).blockno
    → x.refcnt ≡ (c.bufs b).refcnt
    → IsCache c held
    → IsCache (update c b x) held
keep-IsCache c held b x d n r is =
    Like-IsCache c (update c b x) held held (update-Like c b x d n)
      (pointwise (λ j y. y.refcnt ≡ held j) b c.bufs x (r ∙ is.counted b) (λ j _. is.counted j))
      is.small is

add_ref-IsCache :
    (c : Cache) (held : ℕ → ℕ) (b : ℕ)
    → held b + 1 < 2 ^ 32
    → IsCache c held
    → IsCache (add_ref b c) (plus b held)
add_ref-IsCache c held b h is =
    let x : Buf = record (c.bufs b) { refcnt = ((c.bufs b).refcnt + 1) % 2 ^ 32 } in
    let more : ((c.bufs b).refcnt + 1) % 2 ^ 32 ≡ held b + 1 = omega (arith, is.counted b, h) in
    Like-IsCache c (add_ref b c) held (plus b held) (update-Like c b x refl refl)
      (counted_update c b x held (held b + 1) more is.counted)
      (small_update c b x held (held b + 1) h is.small) is

drop_ref-IsCache :
    (c : Cache) (held : ℕ → ℕ) (b : ℕ)
    → 0 < held b
    → IsCache c held
    → IsCache (drop_ref b c) (minus b held)
drop_ref-IsCache c held b h is =
    let x : Buf = record (c.bufs b) { refcnt = ((c.bufs b).refcnt + 2 ^ 32 - 1) % 2 ^ 32 } in
    let less : ((c.bufs b).refcnt + 2 ^ 32 - 1) % 2 ^ 32 ≡ held b - 1 =
      omega (arith, is.counted b, h, is.small b) in
    Like-IsCache c (drop_ref b c) held (minus b held) (update-Like c b x refl refl)
      (counted_update c b x held (held b - 1) less is.counted)
      (small_update c b x held (held b - 1) (omega (arith, is.small b)) is.small) is

pub listed_count :
    (c : Cache) (held : ℕ → ℕ) (j : ℕ) → IsCache c held → (0 < count j c.order) ↔ (j < nbuf)
listed_count c held j is = ground (arith, is.listed j)

-- The list with the buffer at its head
front-IsCache :
    (c : Cache) (held : ℕ → ℕ) (b : ℕ)
    → b < nbuf
    → IsCache c held
    → IsCache (record c { order = b ∷ unlink b c.order }) held
front-IsCache c held b h is =
    let once : count b c.order ≡ 1 = ground (arith, is.listed b, h) in
    Like-IsCache c (record c { order = b ∷ unlink b c.order }) held held
      (record {
        same_dev = λ j. refl;
        same_blockno = λ j. refl;
        same_count = λ j. count-unlink j b c.order once;
      })
      is.counted is.small is

-- A buffer that nobody uses takes a block that no buffer has.
recycle-IsCache :
    (c : Cache) (held : ℕ → ℕ) (b dev blockno : ℕ)
    → (c.bufs b).refcnt ≡ 0
    → ((j : ℕ) → 0 < count j c.order → ¬ IsBlock (c.bufs j) dev blockno)
    → IsCache c held
    → IsCache (recycle b dev blockno c) (plus b held)
recycle-IsCache c held b dev blockno free absent is =
    let x : Buf = record (c.bufs b) { dev = dev; blockno = blockno; valid = false; refcnt = 1 } in
    let none_held : held b ≡ 0 = omega (arith, is.counted b, free) in
    let first : 1 ≡ held b + 1 = omega (arith, none_held) in
    record {
      listed = is.listed;
      counted = counted_update c b x held (held b + 1) first is.counted;
      small = small_update c b x held (held b + 1) (omega (arith, none_held)) is.small;
      unique = λ i j hi hj. elim (Bool-cases (i == b)) [
        | inl e ↦ elim (Bool-cases (j == b)) [
          | inl f ↦ λ _ _ _. (==_iff i b).0 e ∙ sym ((==_iff j b).0 f)
          | inr f ↦
              rw (e, f)
                (λ nz d n. absurd (absent j ((listed_count c held j is).1 hj) (sym d, sym n)))
        ]
        | inr e ↦ elim (Bool-cases (j == b)) [
          | inl f ↦ rw (e, f) (λ nz d n. absurd (absent i ((listed_count c held i is).1 hi) (d, n)))
          | inr f ↦ rw (e, f) (is.unique i j hi hj)
        ]
      ];
    }

bget_with-IsCache :
    (c c' : Cache) (held : ℕ → ℕ) (b dev blockno : ℕ) (cached unused : Option ℕ)
    → Found c.bufs dev blockno c.order cached
    → Unused c.bufs c.order unused
    → held b + 1 < 2 ^ 32
    → bget_with dev blockno c cached unused ≡ some (b, c')
    → IsCache c held
    → IsCache c' (plus b held)
bget_with-IsCache c c' held b dev blockno cached unused (one h m) u small e is =
    subst (λ p. IsCache p.1 (plus p.0 held)) (some-inj e)
      (add_ref-IsCache c held _ (subst (λ p. held p.0 + 1 < 2 ^ 32) (sym (some-inj e)) small) is)
bget_with-IsCache c c' held b dev blockno cached unused (missing absent) (one h z) small e is =
    subst (λ p. IsCache p.1 (plus p.0 held)) (some-inj e)
      (recycle-IsCache c held _ dev blockno z absent is)
bget_with-IsCache c c' held b dev blockno cached unused (missing absent) (missing v) small e is =
    absurd cc

binit_loop-order :
    (n : ℕ) (c : Cache) (b : ℕ) → count b (binit_loop n c).order ≡ (if ltb b n then 1 else 0)
unfolding binit_loop
binit_loop-order zero c b = ground arith
binit_loop-order (suc n) c b = ground (arith, binit_loop-order n c b)

binit_loop-bufs :
    (n : ℕ) (c : Cache) (b : ℕ)
    → (((binit_loop n c).bufs b).refcnt ≡ (c.bufs b).refcnt)
      × (((binit_loop n c).bufs b).dev ≡ (c.bufs b).dev)
unfolding binit_loop
binit_loop-bufs zero c b = (refl, refl)
binit_loop-bufs (suc n) c b =
    pointwise (λ j y. (y.refcnt ≡ (c.bufs j).refcnt) × (y.dev ≡ (c.bufs j).dev)) n
      (binit_loop n c).bufs _ (binit_loop-bufs n c n) (λ j _. binit_loop-bufs n c j) b

binit-IsCache :
    (c : Cache)
    → ((b : ℕ) → (c.bufs b).refcnt ≡ 0)
    → ((b : ℕ) → (c.bufs b).dev ≡ 0)
    → IsCache (binit c) (λ b. 0)
unfolding binit
binit-IsCache c free unnamed = record {
  listed = binit_loop-order nbuf c;
  counted = λ b. (binit_loop-bufs nbuf c b).0 ∙ free b;
  small = λ b. omega arith;
  unique = λ i j _ _ nz _ _. absurd (nz ((binit_loop-bufs nbuf c i).1 ∙ unnamed i));
}

bread_fill-IsCache :
    (disk : Disk) (b : ℕ) (c : Cache) (held : ℕ → ℕ)
    → IsCache c held
    → IsCache (bread_fill disk b c) held
unfolding bread_fill
bread_fill-IsCache disk b c held is = elim (Bool-cases (c.bufs b).valid) [
  | inl e ↦ rw e is
  | inr e ↦ rw e (keep-IsCache c held b _ refl refl refl is)
]

brelse_unlock-IsCache :
    (pid b : ℕ) (c c' : Cache) (held : ℕ → ℕ)
    → brelse_unlock pid b c ≡ some c'
    → IsCache c held
    → IsCache c' held
unfolding brelse_unlock
brelse_unlock-IsCache pid b c c' held e is =
    subst (λ d. IsCache d held) (some-inj (passed (not (holdingsleep pid (c.bufs b).lock)) e).1)
      (keep-IsCache c held b _ refl refl refl is)

brelse_drop-IsCache :
    (b : ℕ) (c : Cache) (held : ℕ → ℕ)
    → b < nbuf
    → 0 < held b
    → IsCache c held
    → IsCache (brelse_drop b c) (minus b held)
unfolding brelse_drop
brelse_drop-IsCache b c held h some_held is =
    let less = drop_ref-IsCache c held b some_held is in
    elim (Bool-cases (((drop_ref b c).bufs b).refcnt == 0)) [
      | inl e ↦ rw e (front-IsCache (drop_ref b c) (minus b held) b h less)
      | inr e ↦ rw e less
    ]

Step-IsCache :
    (disk : Disk) (u v : Use) → Step disk u v → IsCache u.cache u.held → IsCache v.cache v.held
unfolding bget bpin bunpin
Step-IsCache disk u v (gets {c} {c'} {held} b dev blockno _ small e) is =
    bget_with-IsCache c c' held b dev blockno _ _ (find_cached-Found c.bufs dev blockno c.order)
      (find_unused-Unused c.bufs c.order) small e is
Step-IsCache disk u v (locks {c} {held} pid b lk _) is = keep-IsCache c held b _ refl refl refl is
Step-IsCache disk u v (fills {c} {held} b) is = bread_fill-IsCache disk b c held is
Step-IsCache disk u v (unlocks {c} {c'} {held} pid b e) is =
    brelse_unlock-IsCache pid b c c' held e is
Step-IsCache disk u v (drops {c} {held} b h some_held) is =
    brelse_drop-IsCache b c held h some_held is
Step-IsCache disk u v (pins {c} {held} b h small) is = add_ref-IsCache c held b small is
Step-IsCache disk u v (unpins {c} {held} b h some_held) is = drop_ref-IsCache c held b some_held is

-- In every state that bget, the rest of bread, brelse, bpin and bunpin reach from binit, where they ask for
-- no block of the device 0 and give up only references that are held: the list has each buffer
-- once, `refcnt` is the number of references, and no two buffers have the same block.
pub Reach-IsCache : (disk : Disk) (u : Use) → Reach disk u → IsCache u.cache u.held
Reach-IsCache disk u (start c free unnamed) = binit-IsCache c free unnamed
Reach-IsCache disk u (next {u = w} r step) = Step-IsCache disk w u step (Reach-IsCache disk w r)
