-- ===== src/Fs/Spelling.antt =====
-- The paths of kernel/fs.c that spell a list of names.
use mathlib.Core.Path.{subst}
use csci5103_lab.Common.{
  ℕ, zero, suc, ◌<◌, ◌≡◌, ◌≢◌, refl, ap, ◌∙◌, arith, none, some, List, [], ◌∷◌, ◌++◌, All, length,
  length-append, replicate, take, ◌==◌, ==_false, Bool-cases, inl, inr,
}
use csci5103_lab.Fs.Path.{
  dirsiz, slash, skip_slashes, element, after_element, skip_element, skipelem, named, name_round,
  path_names,
}

abbrev pub IsName : List ℕ → Type 0
IsName [] = ⊥
IsName (c ∷ cs) = All (λ x. x ≢ slash) (c ∷ cs)

-- Names between slashes, any number of which stand in front, between two names and at the end.
pub data Spells : List ℕ → List (List ℕ) → Type 0 where
  slashes : (k : ℕ) → Spells (replicate k slash) []
  last : (k : ℕ) (name : List ℕ) → IsName name → Spells (replicate k slash ++ name) (name ∷ [])
  before :
      (k : ℕ) (name path : List ℕ) (names : List (List ℕ))
      → IsName name
      → Spells (slash ∷ path) names
      → Spells (replicate k slash ++ (name ++ slash ∷ path)) (name ∷ names)

-- The directories store `dirsiz` characters of a name.
abbrev pub truncated : List (List ℕ) → List (List ℕ)
truncated [] = []
truncated (name ∷ names) = take dirsiz name ∷ truncated names

skip_replicate : (k : ℕ) (p : List ℕ) → skip_slashes (replicate k slash ++ p) ≡ skip_slashes p
skip_replicate zero p = refl
skip_replicate (suc k) p = skip_replicate k p

element-append :
    (name p : List ℕ) → All (λ x. x ≢ slash) name → element p ≡ [] → element (name ++ p) ≡ name
element-append [] p h e = e
element-append (c ∷ cs) p (n, h) e =
    rw (==_false c slash n) (ap (λ xs. c ∷ xs) (element-append cs p h e))

after-append :
    (name p : List ℕ)
    → All (λ x. x ≢ slash) name
    → after_element p ≡ p
    → after_element (name ++ p) ≡ p
after-append [] p h e = e
after-append (c ∷ cs) p (n, h) e = rw (==_false c slash n) (after-append cs p h e)

skip_twice : (p : List ℕ) → skip_slashes (skip_slashes p) ≡ skip_slashes p
skip_twice [] = refl
skip_twice (c ∷ p) = elim (Bool-cases (c == slash)) [
  | inl e ↦ rw e (skip_twice p)
  | inr e ↦ rw e (rw e refl)
]

-- A name behind slashes, and what follows it
skipelem-name :
    (k : ℕ) (name p : List ℕ)
    → IsName name
    → element p ≡ []
    → after_element p ≡ p
    → skipelem (replicate k slash ++ (name ++ p)) ≡ some (take dirsiz name, skip_slashes p)
unfolding skipelem
skipelem-name k [] p is e a = absurd is
skipelem-name k (c ∷ cs) p (n, h) e a =
    let first : skip_slashes (c ∷ (cs ++ p)) ≡ c ∷ (cs ++ p) = rw (==_false c slash n) refl in
    ap skip_element (skip_replicate k (c ∷ (cs ++ p)) ∙ first)
    ∙ ap (λ x. some (take dirsiz x, skip_slashes (after_element (c ∷ (cs ++ p)))))
        (element-append (c ∷ cs) p (n, h) e)
    ∙ ap (λ y. some (take dirsiz (c ∷ cs), skip_slashes y)) (after-append (c ∷ cs) p (n, h) a)

-- The slashes at the front do not matter.
path_names-skip : (n : ℕ) (p : List ℕ) → path_names n (skip_slashes p) ≡ path_names n p
unfolding path_names skipelem
path_names-skip zero p = refl
path_names-skip (suc n) p = ap (λ r. name_round (skip_element r) (path_names n)) (skip_twice p)

path_names-name :
    (n k : ℕ) (name p : List ℕ)
    → IsName name
    → element p ≡ []
    → after_element p ≡ p
    → path_names (suc n) (replicate k slash ++ (name ++ p))
      ≡ named (take dirsiz name) (path_names n p)
unfolding path_names
path_names-name n k name p is e a =
    ap (λ r. name_round r (path_names n)) (skipelem-name k name p is e a)
    ∙ ap (named (take dirsiz name)) (path_names-skip n p)

-- No more
skipelem-slashes : (k : ℕ) → skipelem (replicate k slash) ≡ none
unfolding skipelem
skipelem-slashes zero = refl
skipelem-slashes (suc k) = skipelem-slashes k

path_names-slashes : (n k : ℕ) → path_names (suc n) (replicate k slash) ≡ some []
unfolding path_names
path_names-slashes n k = ap (λ r. name_round r (path_names n)) (skipelem-slashes k)

append_nil : (xs : List ℕ) → xs ++ [] ≡ xs
append_nil [] = refl
append_nil (x ∷ xs) = ap (λ ys. x ∷ ys) (append_nil xs)

nonempty : (name : List ℕ) → IsName name → 0 < length name
nonempty [] is = absurd is
nonempty (c ∷ cs) is = omega arith

path_names-end : (n : ℕ) → 0 < n → path_names n [] ≡ some []
unfolding path_names skipelem
path_names-end zero h = absurd (omega (arith, h))
path_names-end (suc n) h = refl

-- The rounds of the loop see the names that a path spells between its slashes, each cut to 14 characters, and
-- more rounds than the path has characters are enough.
pub path_names-Spells :
    (path : List ℕ) (names : List (List ℕ)) (n : ℕ)
    → Spells path names
    → length path < n
    → path_names n path ≡ some (truncated names)
path_names-Spells path names zero s h = absurd (omega (arith, h))
path_names-Spells _ _ (suc n) (slashes k) h = path_names-slashes n k
path_names-Spells _ _ (suc n) (last k name is) h =
    let named_last = path_names-name n k name [] is refl refl in
    subst (λ q. path_names (suc n) (replicate k slash ++ q) ≡ some (take dirsiz name ∷ []))
      (append_nil name)
      (named_last
        ∙ ap (named (take dirsiz name)) (
            path_names-end n
              (omega (arith, h, length-append (replicate k slash) name, nonempty name is))))
path_names-Spells _ _ (suc n) (before k name path names is s) h =
    path_names-name n k name (slash ∷ path) is refl refl
    ∙ ap (named (take dirsiz name)) (
        path_names-Spells (slash ∷ path) names n s (
          omega (
            arith,
            h,
            length-append (replicate k slash) (name ++ slash ∷ path),
            length-append name (slash ∷ path),
            nonempty name is,
          )))
