-- ===== src/Grep/Language.antt =====
-- What a pattern of user/grep.c means, and that `matchhere` decides it.
use mathlib.Core.Path.{subst}
use csci5103_lab.Common.{
  ℕ, ◌≡◌, ◌≢◌, ◌↔◌, ◌⊎◌, inl, inr, refl, sym, ap, arith, Bool, true, false, ◌||◌, List, [], ◌∷◌,
  ◌++◌, All, ◌==◌, if◌then◌else◌, Bool-cases, ==_iff, ==_false, differ,
}
use csci5103_lab.Grep.{star, dot, dollar, is_empty, matchstar, match_one, matchhere}

-- A character of a pattern stands for a character of a text.
abbrev pub Accepts : ℕ → ℕ → Type 0
Accepts c t = (c ≡ dot) ⊎ (c ≡ t)

-- It stands for one: no star follows, and it is no dollar at the end.
abbrev pub IsSingle : ℕ → List ℕ → Type 0
IsSingle c [] = c ≢ dollar
IsSingle c (d ∷ re) = d ≢ star

-- The pattern matches a prefix of the text.
pub data Matches : List ℕ → List ℕ → Type 0 where
  nothing : {text : List ℕ} → Matches [] text
  at_end : Matches (dollar ∷ []) []
  single :
      (c t : ℕ) (re ts : List ℕ)
      → IsSingle c re
      → Accepts c t
      → Matches re ts
      → Matches (c ∷ re) (t ∷ ts)
  repeated :
      {c : ℕ} {re text : List ℕ} (many rest : List ℕ)
      → text ≡ many ++ rest
      → All (Accepts c) many
      → Matches re rest
      → Matches (c ∷ star ∷ re) text

accept_test : (c t : ℕ) → ((c == dot || c == t) ≡ true) ↔ Accepts c t
accept_test c t = ground arith

star_iff : (c t : ℕ) → ((t == c || c == dot) ≡ true) ↔ Accepts c t
star_iff c t = ground arith

abbrev Split : ℕ → List ℕ → List ℕ → Type 0
Split c re text =
    (many : List ℕ) × (rest : List ℕ) × (text ≡ many ++ rest)
    × All (Accepts c) many
    × Matches re rest

more : (c t : ℕ) (re ts : List ℕ) → Accepts c t → Split c re ts → Split c re (t ∷ ts)
more c t re ts a (many, rest, e, all, m) = (t ∷ many, rest, ap (λ xs. t ∷ xs) e, (a, all), m)

first_or_later :
    (a b : Bool) {r : Bool}
    → (if a then true else if b then r else false) ≡ true
    → (a ≡ true) ⊎ ((b ≡ true) × (r ≡ true))
first_or_later true b e = inl refl
first_or_later false true e = inr (refl, e)
first_or_later false false e = absurd cc

matchstar_sound :
    (c : ℕ) (re : List ℕ) (here : List ℕ → Bool)
    → ((ts : List ℕ) → here ts ≡ true → Matches re ts)
    → (text : List ℕ) → matchstar c here text ≡ true
    → Split c re text
unfolding matchstar
matchstar_sound c re here sound [] e = ([], [], refl, tt, sound [] e)
matchstar_sound c re here sound (t ∷ ts) e =
    elim (first_or_later (here (t ∷ ts)) (t == c || c == dot) e) [
      | inl f ↦ ([], t ∷ ts, refl, tt, sound (t ∷ ts) f)
      | inr (g, later) ↦
          more c t re ts ((star_iff c t).0 g) (matchstar_sound c re here sound ts later)
    ]

matchstar_complete :
    (c : ℕ) (here : List ℕ → Bool) (many rest : List ℕ)
    → All (Accepts c) many
    → here rest ≡ true
    → matchstar c here (many ++ rest) ≡ true
unfolding matchstar
matchstar_complete c here [] [] a e = e
matchstar_complete c here [] (t ∷ ts) a e = rw e refl
matchstar_complete c here (x ∷ many) rest (a, all) e =
    elim (Bool-cases (here (x ∷ (many ++ rest)))) [
      | inl f ↦ rw f refl
      | inr f ↦ rw (f, (star_iff c x).1 a) (matchstar_complete c here many rest all e)
    ]

both : (a : Bool) {r : Bool} → (if a then r else false) ≡ true → (a ≡ true) × (r ≡ true)
both true e = (refl, e)
both false e = absurd cc

match_one_sound :
    (c : ℕ) (re : List ℕ) (here : List ℕ → Bool)
    → IsSingle c re
    → ((ts : List ℕ) → here ts ≡ true → Matches re ts)
    → (text : List ℕ) → match_one c here text ≡ true
    → Matches (c ∷ re) text
match_one_sound c re here plain sound [] e = absurd cc
match_one_sound c re here plain sound (t ∷ ts) e =
    let found = both (c == dot || c == t) e in
    single c t re ts plain ((accept_test c t).0 found.0) (sound ts found.1)

pub which :
    (a : Bool) {x y : Bool}
    → (if a then x else y) ≡ true
    → ((a ≡ true) × (x ≡ true)) ⊎ ((a ≡ false) × (y ≡ true))
which true e = inl (refl, e)
which false e = inr (refl, e)

at_end_sound : (c : ℕ) (text : List ℕ) → c ≡ dollar → is_empty text ≡ true → Matches (c ∷ []) text
at_end_sound c [] e h = subst (λ x. Matches (x ∷ []) []) (sym e) at_end
at_end_sound c (t ∷ ts) e h = absurd cc

pub matchhere_sound : (re text : List ℕ) → matchhere re text ≡ true → Matches re text
unfolding matchhere
matchhere_sound [] text e = nothing
matchhere_sound (c ∷ []) text e = elim (which (c == dollar) e) [
  | inl (f, empty) ↦ at_end_sound c text ((==_iff c dollar).0 f) empty
  | inr (f, one) ↦
      match_one_sound c [] (λ _. true) (λ z. differ f ((==_iff c dollar).1 z)) (λ ts _. nothing)
        text one
]
matchhere_sound (c ∷ d ∷ re) text e = elim (which (d == star) e) [
  | inl (f, many) ↦
      let found = matchstar_sound c re (matchhere re) (matchhere_sound re) text many in
      subst (λ x. Matches (c ∷ x ∷ re) text) (sym ((==_iff d star).0 f))
        (repeated found.0 found.1 found.2 found.3 found.4)
  | inr (f, one) ↦
      match_one_sound c (d ∷ re) (matchhere (d ∷ re)) (λ z. differ f ((==_iff d star).1 z))
        (matchhere_sound (d ∷ re)) text one
]

match_one_complete :
    (c t : ℕ) (here : List ℕ → Bool) (ts : List ℕ)
    → Accepts c t
    → here ts ≡ true
    → match_one c here (t ∷ ts) ≡ true
match_one_complete c t here ts a e = rw ((accept_test c t).1 a) e

pub matchhere_complete : (re text : List ℕ) → Matches re text → matchhere re text ≡ true
unfolding matchhere
matchhere_complete _ _ (nothing) = refl
matchhere_complete _ _ (at_end) = refl
matchhere_complete _ _ (single c t [] ts plain a m) =
    rw (==_false c dollar plain, (accept_test c t).1 a) refl
matchhere_complete _ _ (single c t (d ∷ re) ts plain a m) =
    rw (==_false d star plain, (accept_test c t).1 a) (matchhere_complete (d ∷ re) ts m)
matchhere_complete _ _ (repeated {c} {re} {text} many rest e all m) =
    rw e (matchstar_complete c (matchhere re) many rest all (matchhere_complete re rest m))
