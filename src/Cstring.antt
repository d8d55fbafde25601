-- ===== src/Cstring.antt =====
-- kernel/string.c on the bytes of memory: `memset`, `memmove`, `memcpy`, `safestrcpy`, `strncpy`,
-- `strlen`; `memcmp` and `strncmp` are in Compare. Pointers are
-- addresses, and no object ends at the top of the address space.
pub mod Blocks
pub mod Strings
pub mod Compare
pub mod Copy
mod Tests
use csci5103_lab.Common.{ℕ, zero, suc, ◌+◌, ◌-◌, ◌&&◌, Option, none, some, ltb, ◌==◌, if◌then◌else◌}
use csci5103_lab.Memory.{Memory, load8, store8}

unfoldable pub memset_loop : ℕ → Memory → ℕ → ℕ → ℕ → Memory
memset_loop zero m dst c i = m
memset_loop (suc k) m dst c i = memset_loop k (store8 m (dst + i) c) dst c (i + 1)

unfoldable pub memset : Memory → ℕ → ℕ → ℕ → Memory
memset m dst c n = memset_loop n m dst c 0

-- `*d++ = *s++` and `*--d = *--s`, `n` times
unfoldable pub forward : ℕ → Memory → ℕ → ℕ → Memory
forward zero m d s = m
forward (suc n) m d s = forward n (store8 m d (load8 m s)) (d + 1) (s + 1)

unfoldable pub backward : ℕ → Memory → ℕ → ℕ → Memory
backward zero m d s = m
backward (suc n) m d s = backward n (store8 m (d - 1) (load8 m (s - 1))) (d - 1) (s - 1)

unfoldable pub memmove : Memory → ℕ → ℕ → ℕ → Memory
memmove m dst src n =
    if n == 0
    then m
    else if ltb src dst && ltb dst (src + n)
    then backward n m (dst + n) (src + n)
    else forward n m dst src

-- The loop, for at most `k` bytes: memory and the pointer `s` after it.
unfoldable pub safestrcpy_loop : ℕ → Memory → ℕ → ℕ → Memory × ℕ
safestrcpy_loop zero m s t = (m, s)
safestrcpy_loop (suc k) m s t =
    let m' = store8 m s (load8 m t) in
    let rest = safestrcpy_loop k m' (s + 1) (t + 1) in if load8 m t == 0 then (m', s + 1) else rest

-- A size that is 0 or negative is 0 here.
unfoldable pub safestrcpy : Memory → ℕ → ℕ → ℕ → Memory
safestrcpy m s t n =
    if n == 0 then m else let (m', s') = safestrcpy_loop (n - 1) m s t in store8 m' s' 0

-- `none`: more than the fuel's bytes were not zero.
unfoldable pub strlen_loop : ℕ → Memory → ℕ → ℕ → Option ℕ
strlen_loop zero m s n = none
strlen_loop (suc k) m s n =
    let rest = strlen_loop k m s (n + 1) in if load8 m (s + n) == 0 then some n else rest

unfoldable pub strlen : ℕ → Memory → ℕ → Option ℕ
strlen fuel m s = strlen_loop fuel m s 0

-- The second loop of `strncpy`, and the first, for `k` bytes that are left
unfoldable pub pad_zeros : ℕ → Memory → ℕ → Memory
pad_zeros zero m s = m
pad_zeros (suc k) m s = pad_zeros k (store8 m s 0) (s + 1)

unfoldable pub strncpy_loop : ℕ → Memory → ℕ → ℕ → Memory
strncpy_loop zero m s t = m
strncpy_loop (suc k) m s t =
    let m' = store8 m s (load8 m t) in
    let rest = strncpy_loop k m' (s + 1) (t + 1) in
    if load8 m t == 0 then pad_zeros k m' (s + 1) else rest

-- A size that is 0 or negative is 0 here.
unfoldable pub strncpy : Memory → ℕ → ℕ → ℕ → Memory
strncpy m s t n = strncpy_loop n m s t

unfoldable pub memcpy : Memory → ℕ → ℕ → ℕ → Memory
memcpy m dst src n = memmove m dst src n
