-- ===== src/Bio/Getting.antt =====
-- What `bget` of kernel/bio.c gives, on all branches.
use csci5103_lab.Common.{ℕ, ◌<◌, ◌≡◌, ◌≢◌, refl, arith, Option, none, some, ==_refl, ==_false}
use csci5103_lab.Bio.{nbuf, Buf, Cache, update, bget, bget_with}
use csci5103_lab.Bio.Lru.{
  IsBlock, Found, one, missing, find_cached-Found, Unused, find_unused-Unused,
}
use csci5103_lab.Bio.Blocks.{IsCache, listed_count}

-- A buffer with the block, which had it already if it was in use; or all are in use for other blocks.
abbrev pub Gets : Cache → (ℕ → ℕ) → ℕ → ℕ → Option (ℕ × Cache) → Type 0
Gets c held dev blockno none = (j : ℕ) → j < nbuf → (0 < held j) × ¬ IsBlock (c.bufs j) dev blockno
Gets c held dev blockno (some (b, c')) =
    (b < nbuf)
    × IsBlock (c'.bufs b) dev blockno
    × (0 < held b → IsBlock (c.bufs b) dev blockno)
    × ((j : ℕ) → j ≢ b → c'.bufs j ≡ c.bufs j)

others_stay : (c : Cache) (b : ℕ) (x : Buf) (j : ℕ) → j ≢ b → (update c b x).bufs j ≡ c.bufs j
others_stay c b x j n = rw (==_false j b n) refl

bget_with-Gets :
    (c : Cache) (held : ℕ → ℕ) (dev blockno : ℕ) (cached unused : Option ℕ)
    → Found c.bufs dev blockno c.order cached
    → Unused c.bufs c.order unused
    → IsCache c held
    → Gets c held dev blockno (bget_with dev blockno c cached unused)
bget_with-Gets c held dev blockno _ unused (one {b} h m) u is =
    ((listed_count c held b is).0 h, rw (==_refl b) m, (λ _. m), others_stay c b _)
bget_with-Gets c held dev blockno _ _ (missing absent) (one {b} h z) is = (
  (listed_count c held b is).0 h,
  rw (==_refl b) (refl, refl),
  (λ k. absurd (omega (arith, is.counted b, z, k))),
  others_stay c b _,
)
bget_with-Gets c held dev blockno _ _ (missing absent) (missing used) is = λ j h.
    let there = (listed_count c held j is).1 h in
    (ground (arith, used j there, is.counted j), absent j there)

-- Where the list has each buffer once, and `refcnt` is the number of references: `bget` gives a
-- buffer with the block asked for, changes no other, and gives one that is in use only if it had the block
-- already; it panics only where all 30 are in use, none with this block.
pub bget-Gets :
    (c : Cache) (held : ℕ → ℕ) (dev blockno : ℕ)
    → IsCache c held
    → Gets c held dev blockno (bget dev blockno c)
unfolding bget
bget-Gets c held dev blockno is =
    bget_with-Gets c held dev blockno _ _ (find_cached-Found c.bufs dev blockno c.order)
      (find_unused-Unused c.bufs c.order) is
