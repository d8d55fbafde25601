-- ===== src/Common/Bit.antt =====
-- Single bits of a number, and `1 << k` in `&`, `|` and `& ~`.
use Prim.Native.Nat.{ℕ, zero, suc, ◌+◌, ◌/◌, ◌%◌, ◌^◌, ◌<◌, min, max, bit_and, bit_or}
use mathlib.Core.Path.{◌≡◌, refl, sym, ap, ◌∙◌}
use native.Mathlib.Omega.{arith, pow_step}
use csci5103_lab.Common.Bits.{bit_or_step, bit_and_step, bit_and-one}
use csci5103_lab.Common.Tests.{◌==◌, ==_false, if◌then◌else◌}

abbrev pub bit : ℕ → ℕ → ℕ
bit x zero = x % 2
bit x (suc k) = bit (x / 2) k

pub bit_lt : (x k : ℕ) → bit x k < 2
bit_lt x zero = omega arith
bit_lt x (suc k) = bit_lt (x / 2) k

bit-zero : (k : ℕ) → bit 0 k ≡ 0
bit-zero zero = refl
bit-zero (suc k) = bit-zero k

pub bit-bit_and : (x y k : ℕ) → bit (bit_and x y) k ≡ min (bit x k) (bit y k)
bit-bit_and x y zero = omega (arith, bit_and_step x y)
bit-bit_and x y (suc k) =
    let half : bit_and x y / 2 ≡ bit_and (x / 2) (y / 2) = omega (arith, bit_and_step x y) in
    ap (λ z. bit z k) half ∙ bit-bit_and (x / 2) (y / 2) k

pub bit-bit_or : (x y k : ℕ) → bit (bit_or x y) k ≡ max (bit x k) (bit y k)
bit-bit_or x y zero = omega (arith, bit_or_step x y)
bit-bit_or x y (suc k) =
    let half : bit_or x y / 2 ≡ bit_or (x / 2) (y / 2) = omega (arith, bit_or_step x y) in
    ap (λ z. bit z k) half ∙ bit-bit_or (x / 2) (y / 2) k

pub bit-power : (k j : ℕ) → bit (2 ^ k) j ≡ (if j == k then 1 else 0)
bit-power zero zero = refl
bit-power zero (suc j) =
    bit-zero j
    ∙ sym (ap (λ t. if t then 1 else 0) (==_false (suc j) 0 (λ e. absurd (omega (arith, e)))))
bit-power (suc k) zero = ground (arith, pow_step 2 k)
bit-power (suc k) (suc j) =
    let half : 2 ^ suc k / 2 ≡ 2 ^ k = omega (arith, pow_step 2 k) in
    let rest : bit (2 ^ suc k / 2) j ≡ (if j == k then 1 else 0) =
      ap (λ z. bit z j) half ∙ bit-power k j in
    ground (arith, rest)

-- `y` and `z` are complements of each other in `n` bits.
pub bit-complement : (n y z j : ℕ) → y + z + 1 ≡ 2 ^ n → j < n → bit y j + bit z j ≡ 1
bit-complement zero y z j e h = absurd (omega (arith, h))
bit-complement (suc n) y z zero e h = omega (arith, e, pow_step 2 n)
bit-complement (suc n) y z (suc j) e h =
    bit-complement n (y / 2) (z / 2) j (omega (arith, e, pow_step 2 n)) (omega (arith, h))

-- `x & (1 << k)` is zero exactly if the bit is.
pub bit_and-power : (x k : ℕ) → bit_and x (2 ^ k) ≡ (if bit x k == 0 then 0 else 2 ^ k)
bit_and-power x zero = ground (arith, bit_and-one x)
bit_and-power x (suc k) =
    let half : 2 ^ suc k / 2 ≡ 2 ^ k = omega (arith, pow_step 2 k) in
    let rest : bit_and (x / 2) (2 ^ suc k / 2) ≡ (if bit (x / 2) k == 0 then 0 else 2 ^ k) =
      ap (bit_and (x / 2)) half ∙ bit_and-power (x / 2) k in
    ground (arith, bit_and_step x (2 ^ suc k), rest, pow_step 2 k)
