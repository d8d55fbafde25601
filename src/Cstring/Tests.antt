-- ===== src/Cstring/Tests.antt =====
-- Theorems on kernel/string.c applied to a memory that holds its addresses below 10 and zeros above.
use csci5103_lab.Common.{ℕ, ◌+◌, ◌<◌, ◌≤◌, ◌≡◌, ◌≢◌, ◌⊎◌, refl, arith, ltb, if◌then◌else◌}
use csci5103_lab.Memory.{Memory, load8, copy}
use csci5103_lab.Cstring.{backward, memmove, safestrcpy}
use csci5103_lab.Cstring.Blocks.{memmove-copy}
use csci5103_lab.Cstring.Strings.{safestrcpy_lem}

abbrev counting : Memory
counting b = if ltb b 10 then b else 0

-- Up by one place, where the two blocks overlap.
memmove-copy_example : memmove counting 4 3 5 8 ≡ copy counting 4 3 5 8
memmove-copy_example = memmove-copy counting 4 3 5 8

overlap_test : memmove counting 4 3 5 8 ≡ 7
unfolding memmove backward
overlap_test = refl

counting-body : (k : ℕ) → k < 7 → load8 counting (3 + k) ≢ 0
counting-body k h = ground arith

safestrcpy_lem_example :
    let r = safestrcpy counting 20 3 4 in
    ((p : ℕ) × (20 ≤ p) × (p < 20 + 4) × (load8 r p ≡ 0))
    × ((b : ℕ) → (b < 20) ⊎ (20 + 4 ≤ b) → r b ≡ counting b)
safestrcpy_lem_example = safestrcpy_lem counting 20 3 4 (omega arith)
