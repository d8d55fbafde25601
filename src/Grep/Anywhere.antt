-- ===== src/Grep/Anywhere.antt =====
-- Where `match` of user/grep.c looks for a pattern.
use mathlib.Core.Path.{subst}
use csci5103_lab.Common.{
  ℕ, ◌≡◌, ◌≢◌, ◌↔◌, inl, inr, refl, sym, ap, ◌∙◌, true, List, [], ◌∷◌, ◌++◌, ◌==◌, Bool-cases,
  ==_iff, ==_false, differ,
}
use csci5103_lab.Grep.{caret, matchhere, match_loop, match}
use csci5103_lab.Grep.Language.{Matches, matchhere_sound, matchhere_complete, which}

-- A `^` at the front ties the pattern to the start of the text; else it matches anywhere.
pub data MatchesIn : List ℕ → List ℕ → Type 0 where
  tied : {re text : List ℕ} → Matches re text → MatchesIn (caret ∷ re) text
  anywhere :
      {re text : List ℕ} (before rest : List ℕ)
      → ((re' : List ℕ) → re ≢ caret ∷ re')
      → text ≡ before ++ rest
      → Matches re rest
      → MatchesIn re text

abbrev Somewhere : List ℕ → List ℕ → Type 0
Somewhere re text = (before : List ℕ) × (rest : List ℕ) × (text ≡ before ++ rest) × Matches re rest

later_on : (re ts : List ℕ) (t : ℕ) → Somewhere re ts → Somewhere re (t ∷ ts)
later_on re ts t (before, rest, e, m) = (t ∷ before, rest, ap (λ xs. t ∷ xs) e, m)

match_loop_sound : (re text : List ℕ) → match_loop re text ≡ true → Somewhere re text
unfolding match_loop
match_loop_sound re [] e = ([], [], refl, matchhere_sound re [] e)
match_loop_sound re (t ∷ ts) e = elim (which (matchhere re (t ∷ ts)) e) [
  | inl (f, _) ↦ ([], t ∷ ts, refl, matchhere_sound re (t ∷ ts) f)
  | inr (_, later) ↦ later_on re ts t (match_loop_sound re ts later)
]

match_loop_complete :
    (re before rest : List ℕ) → Matches re rest → match_loop re (before ++ rest) ≡ true
unfolding match_loop
match_loop_complete re [] [] m = matchhere_complete re [] m
match_loop_complete re [] (t ∷ ts) m = rw (matchhere_complete re (t ∷ ts) m) refl
match_loop_complete re (x ∷ before) rest m =
    elim (Bool-cases (matchhere re (x ∷ (before ++ rest)))) [
      | inl e ↦ rw e refl
      | inr e ↦ rw e (match_loop_complete re before rest m)
    ]

untied :
    (re text : List ℕ) → ((re' : List ℕ) → re ≢ caret ∷ re') → match re text ≡ match_loop re text
unfolding match
untied [] text n = refl
untied (c ∷ re) text n = rw (==_false c caret (λ z. n re (ap (λ x. x ∷ re) z))) refl

found_anywhere :
    (re text : List ℕ)
    → ((re' : List ℕ) → re ≢ caret ∷ re')
    → match_loop re text ≡ true
    → MatchesIn re text
found_anywhere re text n e =
    let found = match_loop_sound re text e in anywhere found.0 found.1 n found.2 found.3

cons-inj : {x y : ℕ} {xs ys : List ℕ} → x ∷ xs ≡ y ∷ ys → x ≡ y
cons-inj e = cc

match_sound : (re text : List ℕ) → match re text ≡ true → MatchesIn re text
unfolding match
match_sound [] text e = found_anywhere [] text (λ re' z. absurd cc) e
match_sound (c ∷ re) text e = elim (which (c == caret) e) [
  | inl (f, here) ↦
      subst (λ x. MatchesIn (x ∷ re) text) (sym ((==_iff c caret).0 f))
        (tied (matchhere_sound re text here))
  | inr (f, loop) ↦
      found_anywhere (c ∷ re) text (λ re' z. differ f ((==_iff c caret).1 (cons-inj z))) loop
]

match_complete : (re text : List ℕ) → MatchesIn re text → match re text ≡ true
unfolding match
match_complete _ _ (tied {re} {text} m) = matchhere_complete re text m
match_complete _ _ (anywhere {re} {text} before rest n e m) =
    untied re text n ∙ rw e (match_loop_complete re before rest m)

-- `match` answers 1 exactly if the pattern, as its grammar reads it, matches the text: at its start where
-- the pattern has `^` in front, and anywhere else.
pub match-MatchesIn : (re text : List ℕ) → (match re text ≡ true) ↔ MatchesIn re text
match-MatchesIn re text = (match_sound re text, match_complete re text)
