-- ===== src/Printf.antt =====
-- `printint` of kernel/printf.c. A 64-bit argument is a number below 2 ^ 64, and the characters are a
-- list, the last one stored at the end.
pub mod Digits
mod Tests
use csci5103_lab.Common.{
  ℕ, zero, suc, ◌+◌, ◌-◌, ◌/◌, ◌%◌, ◌^◌, Bool, ◌&&◌, List, [], ◌∷◌, ◌++◌, leb, ltb, ◌==◌,
  if◌then◌else◌,
}

-- `digits[k]`
abbrev pub digit : ℕ → ℕ
digit k = if ltb k 10 then 48 + k else 87 + k

-- The loop on `x /= base`, for at most `n` rounds
unfoldable pub printint_loop : ℕ → ℕ → ℕ → List ℕ
printint_loop zero x base = []
printint_loop (suc n) x base =
    let rest = printint_loop n (x / base) base in
    digit (x % base) ∷ (if x / base == 0 then [] else rest)

abbrev pub is_minus : ℕ → Bool → Bool
is_minus xx sign = sign && leb (2 ^ 63) xx

abbrev pub magnitude : ℕ → Bool → ℕ
magnitude xx sign = if is_minus xx sign then (2 ^ 64 - xx) % 2 ^ 64 else xx

-- What `printint` stores in `buf`, which it prints from its end; that `buf` has 16 bytes is not modelled. In base 2 and above, 64 rounds are
-- enough.
unfoldable pub printint : ℕ → ℕ → Bool → List ℕ
printint xx base sign =
    printint_loop 64 (magnitude xx sign) base ++ (if is_minus xx sign then 45 ∷ [] else [])
