-- ===== src/Bio/Tests.antt =====
-- The theorems about kernel/bio.c at concrete caches.
use csci5103_lab.Common.{[], ◌≡◌, refl, arith, false, some}
use csci5103_lab.Sleeplock.{initsleeplock}
use csci5103_lab.Bio.{Cache, Disk, bget, binit, binit_loop, recycle}
use csci5103_lab.Bio.Steps.{Use, gets, Reach, start, next, plus}
use csci5103_lab.Bio.Blocks.{IsCache, Reach-IsCache}
use csci5103_lab.Bio.Getting.{Gets, bget-Gets}

abbrev zeros : Cache
zeros = record {
  bufs = λ b. record {
    valid = false;
    dev = 0;
    blockno = 0;
    lock = initsleeplock;
    refcnt = 0;
    contents = λ i. 0;
  };
  order = [];
}

abbrev blank : Disk
blank dev blockno i = 0

abbrev booted : Use
booted = record { cache = binit zeros; held = λ b. 0 }

booted-Reach : Reach blank booted
booted-Reach = start zeros (λ b. refl) (λ b. refl)

first_get : bget 1 7 (binit zeros) ≡ some (0, recycle 0 1 7 (binit zeros))
unfolding bget binit binit_loop
first_get = refl

abbrev one_block : Use
one_block = record { cache = recycle 0 1 7 (binit zeros); held = plus 0 (λ b. 0) }

Reach-IsCache_example : IsCache one_block.cache one_block.held
Reach-IsCache_example =
    Reach-IsCache blank one_block
      (next booted-Reach (gets 0 1 7 (ground arith) (omega arith) first_get))

bget-Gets_example : Gets (binit zeros) (λ b. 0) 1 7 (bget 1 7 (binit zeros))
bget-Gets_example = bget-Gets (binit zeros) (λ b. 0) 1 7 (Reach-IsCache blank booted booted-Reach)
