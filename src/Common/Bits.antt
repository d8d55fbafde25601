-- ===== src/Common/Bits.antt =====
-- `|` of disjoint fields and `&` with one bit, as arithmetic.
use Prim.Native.Nat.{
  ℕ, zero, suc, ◌+◌, ◌*◌, ◌/◌, ◌%◌, ◌≤◌, ◌<◌, min, max, bit_and, bit_or, digits, bitwise,
  bit_and-bitwise, bit_or-bitwise,
}
use mathlib.Core.Path.{◌≡◌, refl, ap}
use native.Mathlib.Omega.{arith}

-- Both operations are `bitwise`, which walks the digits with its first argument as the fuel.
module _ (rest : ℕ → ℕ) (op : ℕ → ℕ → ℕ) where
  -- Any fuel from the first argument on gives the same digits; `c` bounds the fuel.
  digits_stable :
      (c fuel x y : ℕ) → fuel ≤ c → x ≤ fuel → digits rest op fuel x y ≡ bitwise rest op x y
  digits_stable c zero zero y small enough = refl
  digits_stable c zero (suc x) y small enough = absurd (omega arith)
  digits_stable c (suc fuel) zero y small enough = refl
  digits_stable zero (suc fuel) (suc x) y small enough = absurd (omega arith)
  digits_stable (suc c) (suc fuel) (suc x) y small enough =
      let half = suc x / 2 in
      omega (
        arith,
        digits_stable c fuel half (y / 2) (omega arith) (omega arith),
        digits_stable c x half (y / 2) (omega arith) (omega arith),
      )

  -- The lowest digit apart from the others.
  bitwise_digit :
      (x y : ℕ)
      → bitwise rest op (suc x) y ≡ 2 * bitwise rest op (suc x / 2) (y / 2) + op (suc x % 2) (y % 2)
  bitwise_digit x y =
      omega (arith, digits_stable x x (suc x / 2) (y / 2) (omega arith) (omega arith))

-- The two instances, also where the first argument is zero.
pub bit_or_step : (x y : ℕ) → bit_or x y ≡ 2 * bit_or (x / 2) (y / 2) + max (x % 2) (y % 2)
bit_or_step zero y = omega (arith, bit_or-bitwise zero y, bit_or-bitwise (zero / 2) (y / 2))
bit_or_step (suc x) y = omega (
  arith,
  bit_or-bitwise (suc x) y,
  bit_or-bitwise (suc x / 2) (y / 2),
  bitwise_digit (λ d. d) max x y,
)

pub bit_and_step : (x y : ℕ) → bit_and x y ≡ 2 * bit_and (x / 2) (y / 2) + min (x % 2) (y % 2)
bit_and_step zero y = omega (arith, bit_and-bitwise zero y, bit_and-bitwise (zero / 2) (y / 2))
bit_and_step (suc x) y = omega (
  arith,
  bit_and-bitwise (suc x) y,
  bit_and-bitwise (suc x / 2) (y / 2),
  bitwise_digit (λ d. zero) min x y,
)

-- `x | 0`, by halving as often as `k` allows.
bit_or-zero_below : (k x : ℕ) → x < k → bit_or x 0 ≡ x
bit_or-zero_below zero x small = absurd (omega arith)
bit_or-zero_below (suc k) zero small = refl
bit_or-zero_below (suc k) (suc x) small =
    omega (arith, bit_or_step (suc x) 0, bit_or-zero_below k (suc x / 2) (omega arith))

pub bit_or-zero : (x : ℕ) → bit_or x 0 ≡ x
bit_or-zero x = bit_or-zero_below (suc x) x (omega arith)

pub zero-bit_or : (a : ℕ) → bit_or 0 a ≡ a
zero-bit_or a = bit_or-bitwise 0 a

bit_and-zero_below : (k x : ℕ) → x < k → bit_and x 0 ≡ 0
bit_and-zero_below zero x small = absurd (omega arith)
bit_and-zero_below (suc k) zero small = refl
bit_and-zero_below (suc k) (suc x) small =
    omega (arith, bit_and_step (suc x) 0, bit_and-zero_below k (suc x / 2) (omega arith))

bit_and-zero : (x : ℕ) → bit_and x 0 ≡ 0
bit_and-zero x = bit_and-zero_below (suc x) x (omega arith)

-- `a & (1 << k)` for the five low bits.
pub bit_and-one : (a : ℕ) → bit_and a 1 ≡ a % 2
bit_and-one a = omega (arith, bit_and_step a 1, bit_and-zero (a / 2))

pub bit_and_two : (a : ℕ) → bit_and a 2 ≡ 2 * (a / 2 % 2)
bit_and_two a = omega (arith, bit_and_step a 2, bit_and-one (a / 2))

pub bit_and_four : (a : ℕ) → bit_and a 4 ≡ 4 * (a / 4 % 2)
bit_and_four a = omega (arith, bit_and_step a 4, bit_and_two (a / 2))

pub bit_and_eight : (a : ℕ) → bit_and a 8 ≡ 8 * (a / 8 % 2)
bit_and_eight a = omega (arith, bit_and_step a 8, bit_and_four (a / 2))

pub bit_and_sixteen : (a : ℕ) → bit_and a 16 ≡ 16 * (a / 16 % 2)
bit_and_sixteen a = omega (arith, bit_and_step a 16, bit_and_eight (a / 2))

-- `|` of a multiple of `m` and a number below `m` is their sum.
abbrev IsWidth : ℕ → Type 0
IsWidth m = (x f : ℕ) → f < m → bit_or (x * m) f ≡ x * m + f

one-IsWidth : IsWidth 1
one-IsWidth x f h = ground (arith, bit_or-zero x)

double-IsWidth : (m n : ℕ) → n ≡ m * 2 → IsWidth m → IsWidth n
double-IsWidth m n e w x f h =
    ground (arith, bit_or_step (x * n) f, w x (f / 2) (omega arith), ap (λ (t : ℕ). x * t) e)

-- `x | f` where the ten low bits of `x` are clear: the flags fill the low bits.
pub bit_or_fields : (x f : ℕ) → f < 1024 → bit_or (x * 1024) f ≡ x * 1024 + f
bit_or_fields = ten
  where
    five : IsWidth 32
    five = double-IsWidth 16 32 refl (
        double-IsWidth 8 16 refl
          (double-IsWidth 4 8 refl (double-IsWidth 2 4 refl (double-IsWidth 1 2 refl one-IsWidth))))

    ten : IsWidth 1024
    ten = double-IsWidth 512 1024 refl (
        double-IsWidth 256 512 refl (
          double-IsWidth 128 256 refl
            (double-IsWidth 64 128 refl (double-IsWidth 32 64 refl five))))

-- `a | 1` sets the lowest bit.
pub bit_or-one : (a : ℕ) → bit_or a 1 ≡ a / 2 * 2 + 1
bit_or-one a = omega (arith, bit_or_step a 1, bit_or-zero (a / 2))
