-- ===== src/Log/Replay.antt =====
-- What a disk means: the blocks of the file system once the log is replayed. Copies are compared
-- block by block; a block that is in no entry keeps its contents.
use csci5103_lab.Common.{
  false, le→leb, get_or, suc, ◌-◌, ℕ, ◌+◌, ◌<◌, ◌≤◌, ◌≡◌, ◌≢◌, ◌⊎◌, refl, sym, ap, ◌∙◌, arith, List,
  [], ◌∷◌, All, NotIn, length, ◌==◌,
}
use csci5103_lab.Log.Store.{Block, Disk, update}
use csci5103_lab.Log.Code.{read_entries, decode, encode}

-- The blocks of `xs` in `f` replaced by their copies, which stand in `v` behind the header.
abbrev pub put_all : Disk → ℕ → ℕ → List ℕ → Disk → Disk
put_all v start i [] f = f
put_all v start i (x ∷ xs) f = put_all v start (i + 1) xs (update f x (v (start + i + 1)))

-- The disk after its log is replayed.
abbrev pub replay : ℕ → Disk → Disk
replay start d = put_all d start 0 (decode (d start)) d

-- The block is outside the log.
abbrev pub IsHome : ℕ → ℕ → ℕ → Type 0
IsHome start size b = (b < start) ⊎ (start + size ≤ b)

-- Two disks that read the same: outside the log, outside a range, everywhere but on `xs`.
abbrev pub SameHome : ℕ → ℕ → Disk → Disk → Type 0
SameHome start size f g = (b : ℕ) → IsHome start size b → f b ≡ g b

abbrev pub SameBut : ℕ → ℕ → Disk → Disk → Type 0
SameBut lo hi f g = (b : ℕ) → (b < lo) ⊎ (hi ≤ b) → f b ≡ g b

abbrev pub SameOff : List ℕ → Disk → Disk → Type 0
SameOff xs f g = (b : ℕ) → NotIn b xs → f b ≡ g b

-- The copies of `xs` in `v` are what `w` holds.
abbrev pub IsLogged : ℕ → Disk → Disk → ℕ → List ℕ → Type 0
IsLogged start v w i [] = Unit
IsLogged start v w i (x ∷ xs) = (v (start + i + 1) ≡ w x) × IsLogged start v w (i + 1) xs

pub update_self : {A : Type 0} (f : ℕ → A) (x : ℕ) (a : A) → update f x a x ≡ a
update_self f x a = ground arith

pub update_ne : {A : Type 0} (f : ℕ → A) (x : ℕ) (a : A) (b : ℕ) → b ≢ x → update f x a b ≡ f b
update_ne f x a b n = ground arith

pub update-is :
    (f : Disk) (x : ℕ) (a : Block) (b : ℕ) (r : Block)
    → (x ≡ b → a ≡ r)
    → (b ≢ x → f b ≡ r)
    → update f x a b ≡ r
update-is f x a b r self other = ground arith

pub update-same :
    (f g : Disk) (x : ℕ) (a : Block) (b : ℕ) → (b ≢ x → f b ≡ g b) → update f x a b ≡ update g x a b
update-same f g x a b h = ground arith

module _ (start : ℕ) where
  -- Only what is off the list matters: the last copy of a block decides.
  pub put_all-same :
      (v : Disk) (i : ℕ) (xs : List ℕ) (f g : Disk)
      → SameOff xs f g
      → (b : ℕ) → put_all v start i xs f b ≡ put_all v start i xs g b
  put_all-same v i [] f g h b = h b tt
  put_all-same v i (x ∷ xs) f g h b =
      put_all-same v (i + 1) xs (update f x (v (start + i + 1))) (update g x (v (start + i + 1)))
        (λ b' out. update-same f g x (v (start + i + 1)) b' (λ n. h b' (n, out))) b

  pub put_all-off :
      (v : Disk) (i : ℕ) (xs : List ℕ) (f : Disk) → SameOff xs (put_all v start i xs f) f
  put_all-off v i [] f b out = refl
  put_all-off v i (x ∷ xs) f b (n, out) =
      put_all-off v (i + 1) xs (update f x (v (start + i + 1))) b out
      ∙ update_ne f x (v (start + i + 1)) b n

  pub put_all-copies :
      (v v' : Disk) (i : ℕ) (xs : List ℕ) (f : Disk)
      → ((j : ℕ) → start < j → j < start + i + 1 + length xs → v j ≡ v' j)
      → (b : ℕ) → put_all v start i xs f b ≡ put_all v' start i xs f b
  put_all-copies v v' i [] f h b = refl
  put_all-copies v v' i (x ∷ xs) f h b = rw (h (start + i + 1) (omega arith) (omega arith)) (
      put_all-copies v v' (i + 1) xs (update f x (v' (start + i + 1)))
        (λ j low high. h j low (omega arith)) b)

  pub put_all-logged :
      (v w : Disk) (i : ℕ) (xs : List ℕ) (f : Disk) (b : ℕ)
      → IsLogged start v w i xs
      → (NotIn b xs → f b ≡ w b)
      → put_all v start i xs f b ≡ w b
  put_all-logged v w i [] f b is h = h tt
  put_all-logged v w i (x ∷ xs) f b (e, is) h =
      put_all-logged v w (i + 1) xs (update f x (v (start + i + 1))) b is
        (λ out. update-is f x (v (start + i + 1)) b (w b) (λ same. e ∙ ap w same) (λ n. h (n, out)))

-- A header that is written reads back.
read_entries-copies :
    (h : Block) (xs : List ℕ) (i : ℕ)
    → ((k : ℕ) → k < length xs → h (i + 1 + k) ≡ get_or xs k 0)
    → read_entries h i (length xs) ≡ xs
unfolding read_entries
read_entries-copies h [] i is = refl
read_entries-copies h (x ∷ xs) i is =
    rw
      (
        ap h (first i) ∙ is 0 (omega arith),
        read_entries-copies h xs (i + 1) (λ k below. later k below),
      )
      refl
  where
    second : (n k : ℕ) → n + 1 + 1 + k ≡ n + 1 + suc k
    second n k = omega arith

    later : (k : ℕ) → k < length xs → h (i + 1 + 1 + k) ≡ get_or xs k 0
    later k below = ap h (second i k) ∙ is (suc k) (omega arith)

    first : (n : ℕ) → n + 1 ≡ n + 1 + 0
    first n = omega arith

pub decode-encode : (h : Block) (xs : List ℕ) → decode (encode h xs) ≡ xs
unfolding decode encode
decode-encode h xs = read_entries-copies (encode h xs) xs 0 (λ k below. entry k below)
  where
    entry : (k : ℕ) → k < length xs → encode h xs (1 + k) ≡ get_or xs k 0
    entry k below =
        let positive : (1 + k == 0) ≡ false = ground arith in
        let back : 1 + k - 1 ≡ k = omega arith in
        rw (positive, le→leb (1 + k) (length xs) (omega arith), back) refl

module _ (start size : ℕ) where
  pub IsHome-NotIn :
      (xs : List ℕ) (b : ℕ) → All (IsHome start size) xs → start ≤ b → b < start + size → NotIn b xs
  IsHome-NotIn [] b home low high = tt
  IsHome-NotIn (x ∷ xs) b (h, home) low high =
      ((λ e. omega (arith, h, e)), IsHome-NotIn xs b home low high)

  -- A log whose header is empty does nothing.
  pub replay-empty : (d : Disk) → decode (d start) ≡ [] → (b : ℕ) → replay start d b ≡ d b
  replay-empty d e b = ap (λ xs. put_all d start 0 xs d b) e

  pub IsLogged-same :
      (v v' w : Disk) (i : ℕ) (xs : List ℕ)
      → ((j : ℕ) → start < j → j < start + i + 1 + length xs → v j ≡ v' j)
      → IsLogged start v' w i xs
      → IsLogged start v w i xs
  IsLogged-same v v' w i [] same is = tt
  IsLogged-same v v' w i (x ∷ xs) same (e, is) = (
    same (start + i + 1) (omega arith) (omega arith) ∙ e,
    IsLogged-same v v' w (i + 1) xs (λ j low high. same j low (omega arith)) is,
  )

  module _ (lh : List ℕ) (home : All (IsHome start size) lh) (fits : length lh < size) where
    -- Home blocks of the log may be written or not: the replay is the same.
    pub replay-same :
        (d d' : Disk)
        → decode (d start) ≡ lh
        → SameOff lh d' d
        → (b : ℕ) → replay start d' b ≡ replay start d b
    replay-same d d' e same b =
        ap (λ h. put_all d' start 0 (decode h) d' b) (inside start (omega arith) (omega arith))
        ∙ ap (λ xs. put_all d' start 0 xs d' b) e
        ∙ put_all-copies start d' d 0 lh d' (λ j low high. inside j (omega arith) (omega arith)) b
        ∙ put_all-same start d 0 lh d' d same b
        ∙ ap (λ xs. put_all d start 0 xs d b) (sym e)
      where
        inside : (j : ℕ) → start ≤ j → j < start + size → d' j ≡ d j
        inside j low high = same j (IsHome-NotIn lh j home low high)

    pub replay-logged :
        (d w : Disk) (b : ℕ)
        → decode (d start) ≡ lh
        → IsLogged start d w 0 lh
        → (NotIn b lh → d b ≡ w b)
        → replay start d b ≡ w b
    replay-logged d w b e is off =
        ap (λ xs. put_all d start 0 xs d b) e ∙ put_all-logged start d w 0 lh d b is off
