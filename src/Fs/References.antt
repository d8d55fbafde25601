-- ===== src/Fs/References.antt =====
-- The table of inodes of kernel/fs.c under its operations, in any order. `held` counts the references
-- that callers have to an entry.
use mathlib.Core.Path.{subst}
use csci5103_lab.Common.{
  zero, suc, pointwise, ℕ, ◌+◌, ◌-◌, ◌<◌, ◌≡◌, ◌≢◌, ◌⊎◌, inl, inr, refl, sym, ap, ◌∙◌, arith, Bool,
  true, false, Option, none, some, List, [], ◌∷◌, length, set, ltb, ◌==◌, if◌then◌else◌, put,
  put_self, put_ne, some-inj,
}
use csci5103_lab.Fs.Itable.{
  Inode, inode_at, Search, cached, recycle, iget, idup, Dinode, ilocked, ilock_panic, ilock_no_type,
  ilock, iput_free, iput_drop,
}
use csci5103_lab.Fs.Entries.{set-entries, IsFor, Finds, hit, full, free, iget_search-Finds}

pub data Step : List Inode × (ℕ → ℕ) → List Inode × (ℕ → ℕ) → Type 0 where
  gets :
      {is is' : List Inode} {held : ℕ → ℕ} (dev inum i : ℕ)
      → iget dev inum is ≡ some (i, is')
      → Step (is, held) (is', put held i (held i + 1))
  dups :
      {is : List Inode} {held : ℕ → ℕ} (i : ℕ)
      → i < length is
      → 0 < held i
      → Step (is, held) (idup i is, put held i (held i + 1))
  locks :
      {is is' : List Inode} {held : ℕ → ℕ} (dip : Dinode) (i : ℕ)
      → i < length is
      → ilock dip i is ≡ ilocked is'
      → Step (is, held) (is', held)
  frees :
      {is : List Inode} {held : ℕ → ℕ} (i : ℕ)
      → i < length is
      → Step (is, held) (iput_free i is, held)
  drops :
      {is : List Inode} {held : ℕ → ℕ} (i : ℕ)
      → i < length is
      → 0 < held i
      → Step (is, held) (iput_drop i is, put held i (held i - 1))

-- From a table without references
pub data Reach : List Inode × (ℕ → ℕ) → Type 0 where
  start : (is : List Inode) → ((i : ℕ) → (inode_at is i).ref ≡ 0) → Reach (is, λ i. 0)
  next : {u v : List Inode × (ℕ → ℕ)} → Reach u → Step u v → Reach v

pub record IsItable (is : List Inode) (held : ℕ → ℕ) : Type 0 where
  pub counted : (i : ℕ) → (inode_at is i).ref ≡ held i
  pub unique :
      (i j : ℕ)
      → 0 < (inode_at is i).ref
      → 0 < (inode_at is j).ref
      → (inode_at is i).dev ≡ (inode_at is j).dev
      → (inode_at is i).inum ≡ (inode_at is j).inum
      → i ≡ j

-- A change of one entry: its count follows, and if it is in use after it, it was for the same inode
-- before, or no entry was.
module _ (is : List Inode) (held : ℕ → ℕ) (i : ℕ) (x : Inode) (n : ℕ) (ok : IsItable is held)
    (h : i < length is) (count : x.ref ≡ n) where
  set-counted : (j : ℕ) → (inode_at (set is i x) j).ref ≡ put held i n j
  set-counted =
      set-entries (λ j y. y.ref ≡ put held i n j) is i x h (count ∙ sym (put_self held i n))
        (λ j o. ok.counted j ∙ sym (put_ne held i j n o))

  -- The entry is the only one in use for its inode.
  set-IsItable :
      ((j : ℕ) → j ≢ i → 0 < x.ref → IsFor x.dev x.inum (inode_at is j) → ⊥)
      → IsItable (set is i x) (put held i n)
  set-IsItable only = record {
    counted = set-counted;
    unique =
        set-entries
          (λ a y.
            (b : ℕ)
            → 0 < y.ref
            → 0 < (inode_at (set is i x) b).ref
            → y.dev ≡ (inode_at (set is i x) b).dev
            → y.inum ≡ (inode_at (set is i x) b).inum
            → a ≡ b)
          is i x h
          (set-entries (λ b z. 0 < x.ref → 0 < z.ref → x.dev ≡ z.dev → x.inum ≡ z.inum → i ≡ b) is i
            x h (λ _ _ _ _. refl) (λ b o u v d m. absurd (only b o u (v, sym d, sym m))))
          (λ a o.
            set-entries
              (λ b z.
                0 < (inode_at is a).ref
                → 0 < z.ref
                → (inode_at is a).dev ≡ z.dev
                → (inode_at is a).inum ≡ z.inum
                → a ≡ b)
              is i x h (λ u v d m. absurd (only a o v (u, d, m))) (λ b _. ok.unique a b));
  }

  -- It was for the same inode before.
  same-IsItable :
      (0 < x.ref → 0 < (inode_at is i).ref)
      → x.dev ≡ (inode_at is i).dev
      → x.inum ≡ (inode_at is i).inum
      → IsItable (set is i x) (put held i n)
  same-IsItable used d m =
      set-IsItable (λ j o u (v, dj, mj). o (ok.unique j i v (used u) (dj ∙ d) (mj ∙ m)))

in_range : (is : List Inode) (k : ℕ) → 0 < (inode_at is k).ref → k < length is
in_range [] k h = absurd (omega (arith, h))
in_range (x ∷ is) zero h = omega arith
in_range (x ∷ is) (suc k) h = omega (arith, in_range is k h)

iget-IsItable :
    (dev inum i : ℕ) (is is' : List Inode) (held : ℕ → ℕ) (r : Search)
    → Finds (inode_at is) dev inum 0 (length is) none r
    → elim r as (λ _. Option (ℕ × List Inode)) [
      | cached i ↦ some (i, set is i (record (inode_at is i) { ref = (inode_at is i).ref + 1 }))
      | recycle none ↦ none
      | recycle (some i) ↦
          some (
            i,
            set is i (record (inode_at is i) { dev = dev; inum = inum; ref = 1; valid = false }),
          )
    ]
      ≡ some (i, is')
    → IsItable is held
    → IsItable is' (put held i (held i + 1))
iget-IsItable dev inum i is is' held _ (hit {j} _ h m) e ok =
    subst (λ p. IsItable p.1 (put held p.0 (held p.0 + 1))) (some-inj e)
      (same-IsItable is held j _ (held j + 1) ok (omega (arith, h)) (ap (λ k. k + 1) (ok.counted j))
        (λ _. m.0) refl refl)
iget-IsItable dev inum i is is' held _ (full _ _ _) e ok = absurd cc
iget-IsItable dev inum i is is' held _ (free {e = j} (inl z) absent) e ok = absurd cc
iget-IsItable dev inum i is is' held _ (free {e = j} (inr (_, h, z)) absent) e ok =
    subst (λ p. IsItable p.1 (put held p.0 (held p.0 + 1))) (some-inj e)
      (set-IsItable is held j _ (held j + 1) ok (omega (arith, h)) (omega (arith, ok.counted j, z))
        (λ k o _ m. absent k (omega arith) (omega (arith, in_range is k m.0)) m))

put_same :
    (held : ℕ → ℕ) (i : ℕ) (is : List Inode) → IsItable is (put held i (held i)) → IsItable is held
put_same held i is ok = record {
  counted = λ j. ok.counted j ∙ pointwise (λ k n. n ≡ held k) i held (held i) refl (λ _ _. refl) j;
  unique = ok.unique;
}

-- An entry that keeps its inode and its count
keep-IsItable :
    (is : List Inode) (held : ℕ → ℕ) (i : ℕ) (x : Inode)
    → IsItable is held
    → i < length is
    → x.ref ≡ (inode_at is i).ref
    → x.dev ≡ (inode_at is i).dev
    → x.inum ≡ (inode_at is i).inum
    → IsItable (set is i x) held
keep-IsItable is held i x ok h r d m =
    put_same held i (set is i x)
      (same-IsItable is held i x (held i) ok h (r ∙ ok.counted i) (λ u. omega (arith, u, r)) d m)

locked_cases :
    (panics valid no_type : Bool) {is x is' : List Inode}
    → (if panics
        then ilock_panic
        else if valid
        then ilocked is
        else if no_type
        then ilock_no_type
        else ilocked x)
      ≡ ilocked is'
    → (is ≡ is') ⊎ (x ≡ is')
locked_cases true valid no_type e = absurd cc
locked_cases false true no_type e = inl cc
locked_cases false false true e = absurd cc
locked_cases false false false e = inr cc

ilock-IsItable :
    (dip : Dinode) (i : ℕ) (is is' : List Inode) (held : ℕ → ℕ)
    → i < length is
    → ilock dip i is ≡ ilocked is'
    → IsItable is held
    → IsItable is' held
unfolding ilock
ilock-IsItable dip i is is' held h e ok =
    elim (locked_cases (ltb (inode_at is i).ref 1) (inode_at is i).valid (dip.itype == 0) e) [
      | inl same ↦ subst (λ js. IsItable js held) same ok
      | inr same ↦
          subst (λ js. IsItable js held) same (keep-IsItable is held i _ ok h refl refl refl)
    ]

Step-IsItable : (u v : List Inode × (ℕ → ℕ)) → Step u v → IsItable u.0 u.1 → IsItable v.0 v.1
unfolding iget idup iput_free iput_drop
Step-IsItable u v (gets {is} {is'} {held} dev inum i e) ok =
    iget-IsItable dev inum i is is' held _
      (iget_search-Finds (inode_at is) dev inum 0 none is (λ k _. ap (inode_at is) (omega arith))) e
      ok
Step-IsItable u v (dups {is} {held} i h some_held) ok =
    same-IsItable is held i _ (held i + 1) ok h (ap (λ k. k + 1) (ok.counted i))
      (λ _. omega (arith, ok.counted i, some_held)) refl refl
Step-IsItable u v (locks {is} {is'} {held} dip i h e) ok = ilock-IsItable dip i is is' held h e ok
Step-IsItable u v (frees {is} {held} i h) ok = keep-IsItable is held i _ ok h refl refl refl
Step-IsItable u v (drops {is} {held} i h some_held) ok =
    same-IsItable is held i _ (held i - 1) ok h (ap (λ k. k - 1) (ok.counted i))
      (λ _. omega (arith, ok.counted i, some_held)) refl refl

-- In every state that iget, idup, ilock and iput reach from a table without references, where idup and iput
-- get entries that are held: `ref` is the number of references, and no two entries in use are for the
-- same inode of a device.
pub Reach-IsItable : (u : List Inode × (ℕ → ℕ)) → Reach u → IsItable u.0 u.1
Reach-IsItable u (start is unused) = record {
  counted = unused;
  unique = λ i j h _ _ _. absurd (omega (arith, h, unused i));
}
Reach-IsItable u (next {u = w} reach step) = Step-IsItable w u step (Reach-IsItable w reach)
