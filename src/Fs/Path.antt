-- ===== src/Fs/Path.antt =====
-- `skipelem` of kernel/fs.c, and the elements of a path that the loop of `namex` sees. A path is the list of its
-- characters, none of which is 0; `name` is what it holds before its null byte, or all DIRSIZ bytes.
use csci5103_lab.Common.{ℕ, zero, suc, Option, none, some, List, [], ◌∷◌, take, ◌==◌, if◌then◌else◌}

abbrev pub dirsiz : ℕ
dirsiz = 14

abbrev pub slash : ℕ
slash = 47

-- The three loops of `skipelem`; the second one ends behind the element.
abbrev pub skip_slashes : List ℕ → List ℕ
skip_slashes [] = []
skip_slashes (c ∷ path) = if c == slash then skip_slashes path else c ∷ path

abbrev pub element : List ℕ → List ℕ
element [] = []
element (c ∷ path) = if c == slash then [] else c ∷ element path

abbrev pub after_element : List ℕ → List ℕ
after_element [] = []
after_element (c ∷ path) = if c == slash then c ∷ path else after_element path

abbrev pub skip_element : List ℕ → Option (List ℕ × List ℕ)
skip_element [] = none
skip_element (c ∷ path) =
    some (take dirsiz (element (c ∷ path)), skip_slashes (after_element (c ∷ path)))

unfoldable pub skipelem : List ℕ → Option (List ℕ × List ℕ)
skipelem path = skip_element (skip_slashes path)

-- The names in the rounds of the loop of `namex`, where no lookup fails; `none`: out of rounds.
abbrev pub named : List ℕ → Option (List (List ℕ)) → Option (List (List ℕ))
named name none = none
named name (some names) = some (name ∷ names)

abbrev pub name_round :
    Option (List ℕ × List ℕ) → (List ℕ → Option (List (List ℕ))) → Option (List (List ℕ))
name_round none later = some []
name_round (some (name, rest)) later = named name (later rest)

unfoldable pub path_names : ℕ → List ℕ → Option (List (List ℕ))
path_names zero path = none
path_names (suc n) path = name_round (skipelem path) (λ rest. path_names n rest)
