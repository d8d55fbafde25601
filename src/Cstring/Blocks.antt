-- ===== src/Cstring/Blocks.antt =====
-- `memset` and `memmove` of kernel/string.c against the blocks of bytes they are meant to leave.
use csci5103_lab.Common.{
  ap, ==_iff, ℕ, zero, suc, ◌+◌, ◌-◌, ◌≤◌, ◌≡◌, ◌⊎◌, inl, inr, refl, ◌∙◌, arith, true, false, ◌&&◌,
  ltb, ◌==◌, Bool-cases,
}
use csci5103_lab.Memory.{Memory, load8, store8, in_range, fill, copy}
use csci5103_lab.Cstring.{memset_loop, memset, forward, backward, memmove}

memset_loop-fill :
    (n : ℕ) (m : Memory) (dst c i b : ℕ) → memset_loop n m dst c i b ≡ fill m (dst + i) c n b
unfolding memset_loop fill
memset_loop-fill zero m dst c i b = ground arith
memset_loop-fill (suc n) m dst c i b =
    memset_loop-fill n (store8 m (dst + i) c) dst c (i + 1) b ∙ ground arith

forward-step :
    (n : ℕ) (m : Memory) (d s b : ℕ)
    → (d ≤ s) ⊎ (s + suc n ≤ d)
    → copy (store8 m d (load8 m s)) (d + 1) (s + 1) n b ≡ copy m d s (suc n) b
unfolding copy
forward-step n m d s b apart = elim (Bool-cases (in_range d (suc n) b)) [
  | inr out ↦
      let past : in_range (d + 1) n b ≡ false = ground (arith, out) in
      let other : (b == d) ≡ false = ground (arith, out) in rw (out, past, other) refl
  | inl inside ↦ elim (Bool-cases (b == d)) [
    | inl first ↦
        let past : in_range (d + 1) n b ≡ false = ground (arith, first) in
        let here : s + (b - d) ≡ s = omega (arith, (==_iff b d).0 first) in
        rw (inside, past, first, here) (omega arith)
    | inr later ↦
        let next : in_range (d + 1) n b ≡ true = ground (arith, inside, later) in
        let there : s + 1 + (b - (d + 1)) ≡ s + (b - d) = ground (arith, inside, later) in
        let kept : (s + (b - d) == d) ≡ false = ground (arith, inside, later, apart) in
        rw (inside, next, there, kept) refl
  ]
]

forward-copy :
    (n : ℕ) (m : Memory) (d s b : ℕ) → (d ≤ s) ⊎ (s + n ≤ d) → forward n m d s b ≡ copy m d s n b
unfolding forward copy
forward-copy zero m d s b apart = ground arith
forward-copy (suc n) m d s b apart =
    forward-copy n (store8 m d (load8 m s)) (d + 1) (s + 1) b (omega (arith, apart))
    ∙ forward-step n m d s b apart

backward-step :
    (n : ℕ) (m : Memory) (d s b : ℕ)
    → s ≤ d
    → copy (store8 m (d + n) (load8 m (s + n))) d s n b ≡ copy m d s (suc n) b
unfolding copy
backward-step n m d s b below = elim (Bool-cases (in_range d (suc n) b)) [
  | inr out ↦
      let past : in_range d n b ≡ false = ground (arith, out) in
      let other : (b == d + n) ≡ false = ground (arith, out) in rw (out, past, other) refl
  | inl inside ↦ elim (Bool-cases (b == d + n)) [
    | inl last ↦
        let past : in_range d n b ≡ false = ground (arith, last) in
        let here : s + (b - d) ≡ s + n = omega (arith, (==_iff b (d + n)).0 last) in
        rw (inside, past, last, here) (omega arith)
    | inr sooner ↦
        let next : in_range d n b ≡ true = ground (arith, inside, sooner) in
        let kept : (s + (b - d) == d + n) ≡ false = ground (arith, inside, sooner, below) in
        rw (inside, next, kept) refl
  ]
]

backward-copy :
    (n : ℕ) (m : Memory) (d s b : ℕ) → s ≤ d → backward n m (d + n) (s + n) b ≡ copy m d s n b
unfolding backward copy
backward-copy zero m d s b below = ground arith
backward-copy (suc n) m d s b below =
    let d_back : d + suc n - 1 ≡ d + n = omega arith in
    let s_back : s + suc n - 1 ≡ s + n = omega arith in
    rw (d_back, s_back)
      (backward-copy n (store8 m (d + n) (load8 m (s + n))) d s b below
        ∙ backward-step n m d s b below)

nothing-copied : (m : Memory) (d s b : ℕ) → m b ≡ copy m d s 0 b
unfolding copy
nothing-copied m d s b = ground arith

-- `memset` leaves `n` bytes of `c`, and all others as they were.
pub memset-fill : (m : Memory) (dst c n b : ℕ) → memset m dst c n b ≡ fill m dst c n b
unfolding memset
memset-fill m dst c n b =
    let base : dst + 0 ≡ dst = omega arith in
    memset_loop-fill n m dst c 0 b ∙ ap (λ a. fill m a c n b) base

-- `memmove` leaves the `n` bytes that stood at `src` at `dst`, also where the two overlap, and all other
-- bytes as they were.
pub memmove-copy : (m : Memory) (dst src n b : ℕ) → memmove m dst src n b ≡ copy m dst src n b
unfolding memmove
memmove-copy m dst src zero b = nothing-copied m dst src b
memmove-copy m dst src (suc n) b =
    let positive : (suc n == 0) ≡ false = ground arith in
    elim (Bool-cases (ltb src dst && ltb dst (src + suc n))) [
      | inl overlap ↦
          rw (positive, overlap) (backward-copy (suc n) m dst src b (ground (arith, overlap)))
      | inr apart ↦ rw (positive, apart) (forward-copy (suc n) m dst src b (ground (arith, apart)))
    ]
