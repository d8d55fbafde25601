-- ===== src/Bio.antt =====
-- kernel/bio.c: the buffer cache. A `struct buf *` is its index in `bcache.buf`, and the circular list
-- through `prev` and `next` is the list of its buffers from `head.next` on. `bcache.lock` makes what
-- runs under it one step; a function that also takes or gives up a sleep lock is in two steps.
pub mod Lru
pub mod Steps
pub mod Blocks
pub mod Getting
mod Tests
use csci5103_lab.Common.{
  ℕ, zero, suc, ◌+◌, ◌-◌, ◌%◌, ◌^◌, Bool, true, false, not, ◌&&◌, Option, none, some, List, [], ◌∷◌,
  ◌++◌, ◌==◌, if◌then◌else◌,
}
use csci5103_lab.Sleeplock.{
  Sleeplock, initsleeplock, acquiresleep_round, releasesleep, holdingsleep,
}

abbrev pub nbuf : ℕ
nbuf = 30

pub record Buf : Type 0 where
  pub valid : Bool
  pub dev : ℕ
  pub blockno : ℕ
  pub lock : Sleeplock
  pub refcnt : ℕ
  pub contents : ℕ → ℕ

pub record Cache : Type 0 where
  pub bufs : ℕ → Buf
  pub order : List ℕ

abbrev pub update : Cache → ℕ → Buf → Cache
update c b x = record c { bufs = λ j. if j == b then x else c.bufs j }

-- The loop of `binit`, after `n` buffers
unfoldable pub binit_loop : ℕ → Cache → Cache
binit_loop zero c = record c { order = [] }
binit_loop (suc n) c =
    let c' = binit_loop n c in
    record (update c' n (record (c'.bufs n) { lock = initsleeplock })) { order = n ∷ c'.order }

unfoldable pub binit : Cache → Cache
binit c = binit_loop nbuf c

-- The two loops of `bget`
abbrev pub find_cached : (ℕ → Buf) → ℕ → ℕ → List ℕ → Option ℕ
find_cached bufs dev blockno [] = none
find_cached bufs dev blockno (b ∷ bs) =
    if (bufs b).dev == dev && ((bufs b).blockno == blockno)
    then some b
    else find_cached bufs dev blockno bs

-- From `head.prev` on: the last of the list first.
abbrev pub or_here : Option ℕ → ℕ → Bool → Option ℕ
or_here (some l) b unused = some l
or_here none b unused = if unused then some b else none

abbrev pub find_unused : (ℕ → Buf) → List ℕ → Option ℕ
find_unused bufs [] = none
find_unused bufs (b ∷ bs) = or_here (find_unused bufs bs) b ((bufs b).refcnt == 0)

abbrev pub add_ref : ℕ → Cache → Cache
add_ref b c = update c b (record (c.bufs b) { refcnt = ((c.bufs b).refcnt + 1) % 2 ^ 32 })

abbrev pub drop_ref : ℕ → Cache → Cache
drop_ref b c = update c b (record (c.bufs b) { refcnt = ((c.bufs b).refcnt + 2 ^ 32 - 1) % 2 ^ 32 })

abbrev pub recycle : ℕ → ℕ → ℕ → Cache → Cache
recycle b dev blockno c =
    update c b (record (c.bufs b) { dev = dev; blockno = blockno; valid = false; refcnt = 1 })

abbrev pub bget_with : ℕ → ℕ → Cache → Option ℕ → Option ℕ → Option (ℕ × Cache)
bget_with dev blockno c (some b) unused = some (b, add_ref b c)
bget_with dev blockno c none (some b) = some (b, recycle b dev blockno c)
bget_with dev blockno c none none = none

-- `bget` before its `acquiresleep`; `none`: panic "bget: no buffers".
unfoldable pub bget : ℕ → ℕ → Cache → Option (ℕ × Cache)
bget dev blockno c =
    bget_with dev blockno c (find_cached c.bufs dev blockno c.order) (find_unused c.bufs c.order)

-- The rest of `bread`, under the lock of the buffer
abbrev pub Disk : Type 0
Disk = ℕ → ℕ → ℕ → ℕ

unfoldable pub bread_fill : Disk → ℕ → Cache → Cache
bread_fill disk b c =
    if not (c.bufs b).valid
    then update c b
        (record (c.bufs b) { contents = disk (c.bufs b).dev (c.bufs b).blockno; valid = true })
    else c

-- `none`: panic "bwrite".
unfoldable pub bwrite : ℕ → ℕ → Cache → Disk → Option Disk
bwrite pid b c disk =
    if not (holdingsleep pid (c.bufs b).lock)
    then none
    else some (λ dev blockno.
      if dev == (c.bufs b).dev && (blockno == (c.bufs b).blockno)
      then (c.bufs b).contents
      else disk dev blockno)

-- `none`: panic "brelse".
unfoldable pub brelse_unlock : ℕ → ℕ → Cache → Option Cache
brelse_unlock pid b c =
    if not (holdingsleep pid (c.bufs b).lock)
    then none
    else some (update c b (record (c.bufs b) { lock = releasesleep (c.bufs b).lock }))

abbrev pub unlink : ℕ → List ℕ → List ℕ
unlink b [] = []
unlink b (x ∷ xs) = if x == b then xs else x ∷ unlink b xs

unfoldable pub brelse_drop : ℕ → Cache → Cache
brelse_drop b c =
    let c' = drop_ref b c in
    if (c'.bufs b).refcnt == 0 then record c' { order = b ∷ unlink b c'.order } else c'

unfoldable pub bpin : ℕ → Cache → Cache
bpin b c = add_ref b c

unfoldable pub bunpin : ℕ → Cache → Cache
bunpin b c = drop_ref b c
