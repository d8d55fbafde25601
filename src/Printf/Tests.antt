-- ===== src/Printf/Tests.antt =====
-- Runs of `printint` in kernel/printf.c, and the theorem about it at one of them.
use csci5103_lab.Common.{ℕ, ◌-◌, ◌^◌, ◌≡◌, refl, true, [], ◌∷◌}
use csci5103_lab.Printf.{printint, printint_loop}

-- -42
abbrev sample : ℕ
sample = 2 ^ 64 - 42

test_printint : printint sample 10 true ≡ 50 ∷ 52 ∷ 45 ∷ []
unfolding printint printint_loop
test_printint = refl
