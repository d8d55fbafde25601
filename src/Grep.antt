-- ===== src/Grep.antt =====
-- The matcher of user/grep.c. A string is the list of its characters, none of which is 0.
pub mod Language
pub mod Anywhere
mod Tests
use csci5103_lab.Common.{ℕ, Bool, true, false, ◌&&◌, ◌||◌, List, [], ◌∷◌, ◌==◌, if◌then◌else◌}

abbrev pub star : ℕ
star = 42

abbrev pub dot : ℕ
dot = 46

abbrev pub dollar : ℕ
dollar = 36

abbrev pub caret : ℕ
caret = 94

abbrev pub is_empty : List ℕ → Bool
is_empty [] = true
is_empty (t ∷ ts) = false

-- `matchstar(c, re, text)`, where `here` is `matchhere(re, _)`
unfoldable pub matchstar : ℕ → (List ℕ → Bool) → List ℕ → Bool
matchstar c here [] = here []
matchstar c here (t ∷ ts) =
    let later = matchstar c here ts in
    if here (t ∷ ts) then true else if t == c || c == dot then later else false

-- The last test of `matchhere`, where `here` is `matchhere(re+1, _)`
abbrev pub match_one : ℕ → (List ℕ → Bool) → List ℕ → Bool
match_one c here [] = false
match_one c here (t ∷ ts) = if c == dot || c == t then here ts else false

unfoldable pub matchhere : List ℕ → List ℕ → Bool
matchhere [] text = true
matchhere (c ∷ []) text = if c == dollar then is_empty text else match_one c (λ _. true) text
matchhere (c ∷ d ∷ re) text =
    let repeated = matchstar c (matchhere re) text in
    let single = match_one c (matchhere (d ∷ re)) text in if d == star then repeated else single

-- The loop of `match`
unfoldable pub match_loop : List ℕ → List ℕ → Bool
match_loop re [] = matchhere re []
match_loop re (t ∷ ts) =
    let later = match_loop re ts in if matchhere re (t ∷ ts) then true else later

unfoldable pub match : List ℕ → List ℕ → Bool
match [] text = match_loop [] text
match (c ∷ re) text = if c == caret then matchhere re text else match_loop (c ∷ re) text
