-- ===== src/Grep/Tests.antt =====
-- Runs of the matcher of user/grep.c.
use csci5103_lab.Common.{ℕ, List, [], ◌∷◌, true, ◌≡◌, ◌↔◌, refl}
use csci5103_lab.Grep.{star, dollar, match, match_loop, matchhere, matchstar}
use csci5103_lab.Grep.Anywhere.{MatchesIn, match-MatchesIn}

-- "a*b$" and "caab"
abbrev sample : List ℕ
sample = 97 ∷ star ∷ 98 ∷ dollar ∷ []

abbrev line : List ℕ
line = 99 ∷ 97 ∷ 97 ∷ 98 ∷ []

test_match : match sample line ≡ true
unfolding match match_loop matchhere matchstar
test_match = refl

match-MatchesIn_example : (match sample line ≡ true) ↔ MatchesIn sample line
match-MatchesIn_example = match-MatchesIn sample line
