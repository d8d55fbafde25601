-- ===== src/Memory.antt =====
-- Physical memory as bytes, and 64-bit little-endian words in it. A stored byte is read modulo 256.
pub mod Word
pub mod Entry
use csci5103_lab.Common.{ℕ, ◌+◌, ◌-◌, ◌*◌, ◌/◌, ◌%◌, ◌^◌, Bool, ◌&&◌, ltb, leb, ◌==◌, if◌then◌else◌}

abbrev pub Memory : Type 0
Memory = ℕ → ℕ

-- `*(uchar *)a`
abbrev pub load8 : Memory → ℕ → ℕ
load8 m a = m a % 256

abbrev pub store8 : Memory → ℕ → ℕ → Memory
store8 m a v b = if b == a then v % 256 else m b

abbrev pub in_range : ℕ → ℕ → ℕ → Bool
in_range a n b = leb a b && ltb b (a + n)

-- `*(uint64 *)a`
unfoldable pub load64 : Memory → ℕ → ℕ
load64 m a =
    load8 m a
    + load8 m (a + 1) * 2 ^ 8
    + load8 m (a + 2) * 2 ^ 16
    + load8 m (a + 3) * 2 ^ 24
    + load8 m (a + 4) * 2 ^ 32
    + load8 m (a + 5) * 2 ^ 40
    + load8 m (a + 6) * 2 ^ 48
    + load8 m (a + 7) * 2 ^ 56

unfoldable pub store64 : Memory → ℕ → ℕ → Memory
store64 m a v b = if in_range a 8 b then v / 2 ^ (8 * (b - a)) % 256 else m b

-- `n` bytes from `a` on set to `c`, and `n` bytes from `src` copied to `dst`: what `memset` and
-- `memmove` of kernel/string.c compute.
unfoldable pub fill : Memory → ℕ → ℕ → ℕ → Memory
fill m a c n b = if in_range a n b then c % 256 else m b

unfoldable pub copy : Memory → ℕ → ℕ → ℕ → Memory
copy m dst src n b = if in_range dst n b then load8 m (src + (b - dst)) else m b

-- `*(uint *)a`
unfoldable pub load32 : Memory → ℕ → ℕ
load32 m a =
    load8 m a + load8 m (a + 1) * 2 ^ 8 + load8 m (a + 2) * 2 ^ 16 + load8 m (a + 3) * 2 ^ 24

unfoldable pub store32 : Memory → ℕ → ℕ → Memory
store32 m a v b = if in_range a 4 b then v / 2 ^ (8 * (b - a)) % 256 else m b
