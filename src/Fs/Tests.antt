-- ===== src/Fs/Tests.antt =====
-- The theorems about kernel/fs.c at a concrete table and a concrete path.
use csci5103_lab.Common.{arith, ℕ, zero, suc, List, [], ◌∷◌, ◌≡◌, refl, some, put}
use csci5103_lab.Fs.Itable.{Inode, no_inode, inode_at, iget, iget_search}
use csci5103_lab.Fs.References.{gets, start, next, IsItable, Reach-IsItable}
use csci5103_lab.Fs.Path.{path_names}
use csci5103_lab.Fs.Spelling.{Spells, slashes, before, path_names-Spells}

abbrev used_inode : Inode
used_inode = record no_inode { dev = 1; inum = 7; ref = 1 }

-- A table of two entries, after a first `iget`
abbrev after_get : List Inode
after_get = used_inode ∷ no_inode ∷ []

unused : (i : ℕ) → (inode_at (no_inode ∷ no_inode ∷ []) i).ref ≡ 0
unused zero = refl
unused (suc zero) = refl
unused (suc (suc i)) = refl

first_get : iget 1 7 (no_inode ∷ no_inode ∷ []) ≡ some (0, after_get)
unfolding iget iget_search
first_get = refl

Reach-IsItable_example : IsItable after_get (put (λ i. 0) 0 1)
Reach-IsItable_example =
    Reach-IsItable (after_get, put (λ i. 0) 0 1)
      (next (start (no_inode ∷ no_inode ∷ []) unused) (gets 1 7 0 first_get))

-- "//a/bc/"
abbrev sample_path : List ℕ
sample_path = 47 ∷ 47 ∷ 97 ∷ 47 ∷ 98 ∷ 99 ∷ 47 ∷ []

sample_path-Spells : Spells sample_path ((97 ∷ []) ∷ (98 ∷ 99 ∷ []) ∷ [])
sample_path-Spells =
    before 2 (97 ∷ []) (98 ∷ 99 ∷ 47 ∷ []) ((98 ∷ 99 ∷ []) ∷ []) (ground arith, tt)
      (before 1 (98 ∷ 99 ∷ []) [] [] (ground arith, (ground arith, tt)) (slashes 1))

path_names-Spells_example : path_names 8 sample_path ≡ some ((97 ∷ []) ∷ (98 ∷ 99 ∷ []) ∷ [])
path_names-Spells_example =
    path_names-Spells sample_path ((97 ∷ []) ∷ (98 ∷ 99 ∷ []) ∷ []) 8 sample_path-Spells
      (omega arith)
