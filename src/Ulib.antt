-- ===== src/Ulib.antt =====
-- `strcmp`, `strchr` and `atoi` of user/ulib.c. A string is its characters before the null byte.
pub mod Numbers
use csci5103_lab.Common.{
  ℕ, zero, suc, ◌+◌, ◌-◌, ◌*◌, ◌%◌, ◌^◌, Bool, ◌&&◌, List, [], ◌∷◌, Option, none, some, leb, ◌==◌,
  if◌then◌else◌,
}

-- The result is an `int`, of 32 bits.
abbrev pub int_difference : ℕ → ℕ → ℕ
int_difference p q = (p + 2 ^ 32 - q) % 2 ^ 32

unfoldable pub strcmp : List ℕ → List ℕ → ℕ
strcmp [] [] = 0
strcmp [] (y ∷ q) = int_difference 0 y
strcmp (x ∷ p) [] = int_difference x 0
strcmp (x ∷ p) (y ∷ q) = if x == y then strcmp p q else int_difference x y

-- What follows the pointer that `strchr` returns, `none` for 0
unfoldable pub strchr : List ℕ → ℕ → Option (List ℕ)
strchr [] c = none
strchr (x ∷ s) c = if x == c then some (x ∷ s) else strchr s c

abbrev pub is_digit : ℕ → Bool
is_digit c = leb 48 c && leb c 57

unfoldable pub atoi_loop : List ℕ → ℕ → ℕ
atoi_loop [] n = n
atoi_loop (c ∷ s) n = if is_digit c then atoi_loop s ((n * 10 + c - 48) % 2 ^ 32) else n

unfoldable pub atoi : List ℕ → ℕ
atoi s = atoi_loop s 0
