-- ===== src/Printf/Digits.antt =====
-- What the characters of `printint` in kernel/printf.c mean, and how many there are.
use csci5103_lab.Common.{ℕ, ◌+◌, ◌-◌, ◌*◌, ◌^◌, ◌≤◌, Bool, List, [], ◌∷◌, if◌then◌else◌}
use csci5103_lab.Printf.{is_minus}

-- The number that the characters '0' to '9' stand for, the lowest digit first
abbrev pub IsDecimal : ℕ → Type 0
IsDecimal c = (48 ≤ c) × (c ≤ 57)

abbrev pub value : List ℕ → ℕ
value [] = 0
value (c ∷ cs) = c - 48 + 10 * value cs

-- The sign, then the digits
abbrev pub signed_value : ℕ → Bool → ℕ
signed_value xx sign = if is_minus xx sign then 2 ^ 64 - xx else xx
