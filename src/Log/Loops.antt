-- ===== src/Log/Loops.antt =====
-- The two loops of kernel/log.c and `write_head`, however they end.
use csci5103_lab.Common.{
  ==_refl, ◌-◌, ==_iff, Bool-cases, ℕ, zero, suc, ◌+◌, ◌<◌, ◌≡◌, ◌≢◌, inl, inr, refl, sym, ap, ◌∙◌,
  arith, Bool, true, false, List, [], ◌∷◌, All, Option, some, length, ◌==◌, if◌then◌else◌,
}
use csci5103_lab.Log.Store.{
  Block, Disk, Store, update, cached_or, view, Run, M, pure, ◌>>◌, bread, set_data, bwrite, bunpin,
  write_with, and_then,
}
use csci5103_lab.Log.Code.{install_trans, write_log, write_head, encode}
use csci5103_lab.Log.Replay.{
  put_all, IsHome, SameHome, SameBut, SameOff, IsLogged, update_self, update_ne, put_all-copies,
  put_all-same,
}
use csci5103_lab.Log.Ends.{Ends, Ends-mono, Ends-tail}

-- Every reader sees `f`, and the disk holds `d`.
abbrev pub Reads : Store → Disk → Disk → Type 0
Reads s d f = ((b : ℕ) → s.disk b ≡ d b) × ((b : ℕ) → view s b ≡ f b)

-- What a reader sees once the buffer of `t` is written: the disk and the cache agree there.
view-written :
    (c : ℕ → Option Block) (d : Disk) (t : ℕ) (l : Block) (f : Disk) (b : ℕ)
    → c t ≡ some l
    → (b ≢ t → cached_or (c b) (d b) ≡ f b)
    → cached_or (c b) (update d t (cached_or (c t) (d t)) b) ≡ update f t l b
view-written c d t l f b e other = elim (Bool-cases (t == b)) [
  | inl same ↦ rw (same, ap c (sym ((==_iff t b).0 same)) ∙ e) refl
  | inr differ ↦ rw (differ, other (λ eq. ground arith)) refl
]

-- `bwrite` of block `t`, whose buffer holds `l`, before `rest`.
pub bwrite-then :
    {B : Type 0} (t : ℕ) (l : Block) (s s' : Store) (rest : Unit {0} → M B) (R : B → Store → Type 0)
    (C : Disk → Type 0)
    → s'.disk ≡ s.disk
    → s'.cache t ≡ some l
    → ((b : ℕ) → b ≢ t → view s' b ≡ view s b)
    → C s.disk
    → ((s2 : Store) → Reads s2 (update s.disk t l) (update (view s) t l) → Ends R C (rest tt s2))
    → Ends R C (and_then (bwrite t s') rest)
unfolding bwrite
bwrite-then t l s s' rest R C e c other crash next = go s'.budget
  where
    go : (n : ℕ) → Ends R C (and_then (write_with t n s') rest)
    go zero = rw e crash
    go (suc n) =
        next (record s' { disk = update s'.disk t (view s' t); budget = n })
          (λ b. rw (c, e) refl, λ b. view-written s'.cache s'.disk t l (view s) b c (other b))

-- Reading a block changes nothing for readers, and neither does a change to another block.
pub view-read :
    (c : ℕ → Option Block) (d : Disk) (a b : ℕ)
    → cached_or (update c a (some (cached_or (c a) (d a))) b) (d b) ≡ cached_or (c b) (d b)
view-read c d a b = elim (Bool-cases (a == b)) [
  | inl same ↦ rw (same, (==_iff a b).0 same) refl
  | inr differ ↦ rw differ refl
]

view-set :
    (c : ℕ → Option Block) (d : Disk) (t : ℕ) (x : Option Block) (b : ℕ)
    → b ≢ t
    → cached_or (update c t x b) (d b) ≡ cached_or (c b) (d b)
view-set c d t x b n = ap (λ o. cached_or o (d b)) (update_ne c t x b n)

-- Two blocks read and the buffer of `t` changed.
view-copied :
    (c : ℕ → Option Block) (d : Disk) (a a' t : ℕ) (l : Block) (b : ℕ)
    → b ≢ t
    → let c1 = update c a (some (cached_or (c a) (d a))) in
      let c2 = update c1 a' (some (cached_or (c1 a') (d a'))) in
      cached_or (update c2 t (some l) b) (d b) ≡ cached_or (c b) (d b)
view-copied c d a a' t l b n =
    let c1 = update c a (some (cached_or (c a) (d a))) in
    let c2 = update c1 a' (some (cached_or (c1 a') (d a'))) in
    view-set c2 d t (some l) b n ∙ view-read c1 d a' b ∙ view-read c d a b

unpin-then :
    {B : Type 0} (r : Bool) (x : ℕ) (k : M B) (s : Store) (d f : Disk) (R : B → Store → Type 0)
    (C : Disk → Type 0)
    → Reads s d f
    → ((s' : Store) → Reads s' d f → Ends R C (k s'))
    → Ends R C (((if r then pure tt else bunpin x) >> k) s)
unfolding bunpin
unpin-then true x k s d f R C is next = next s is
unpin-then false x k s d f R C is next =
    next (record s { pins = update s.pins x (s.pins x - 1) }) is

module _ (start size : ℕ) where
  -- The disk and its readers have the copies, or a crash left all other blocks alone.
  abbrev pub Installed : ℕ → List ℕ → Store → Run (Unit {0}) → Type 0
  Installed i xs s =
      Ends
        (λ _ s'.
          Reads s' (put_all (view s) start i xs s.disk) (put_all (view s) start i xs (view s)))
        (λ d. SameOff xs d s.disk)

  Installed-step :
      (i x : ℕ) (xs : List ℕ) (s s3 : Store) (r : Run (Unit {0}))
      → IsHome start size x
      → i + length (x ∷ xs) < size
      → Reads s3
          (update s.disk x (view s (start + i + 1)))
          (update (view s) x (view s (start + i + 1)))
      → Installed (i + 1) xs s3 r
      → Installed i (x ∷ xs) s r
  Installed-step i x xs s s3 r h fits (d3, v3) is =
      Ends-mono _ _ _ _ r is
        (λ _ s' (d4, v4). (
          (λ b.
              d4 b ∙ copies s3.disk b ∙ put_all-same start (view s) (i + 1) xs _ _ (λ j _. d3 j) b),
          (λ b.
              v4 b
              ∙ copies (view s3) b
              ∙ put_all-same start (view s) (i + 1) xs _ _ (λ j _. v3 j) b),
        ))
        (λ d same b (n, out). same b out ∙ d3 b ∙ update_ne s.disk x _ b n)
    where
      copies :
          (f : Disk) (b : ℕ)
          → put_all (view s3) start (i + 1) xs f b ≡ put_all (view s) start (i + 1) xs f b
      copies f b =
          put_all-copies start (view s3) (view s) (i + 1) xs f
            (λ j low high. v3 j ∙ update_ne (view s) x _ j (λ e. omega (arith, h, e))) b

  pub install_trans-Ends :
      (r : Bool) (i : ℕ) (xs : List ℕ) (s : Store)
      → All (IsHome start size) xs
      → i + length xs < size
      → Installed i xs s (install_trans r start i xs s)
  unfolding install_trans bread set_data
  install_trans-Ends r i [] s home fits = (λ b. refl, λ b. refl)
  install_trans-Ends r i (x ∷ xs) s (h, home) fits =
      let slot = start + i + 1 in
      bwrite-then x (view s slot) s _ _ _ _ refl (rw (==_refl x) refl)
        (view-copied s.cache s.disk slot x x (view s slot)) (λ b out. refl)
        (λ s2 is. unpin-then r x (install_trans r start (i + 1) xs) s2 _ _ _ _ is (λ s3 is3.
          Installed-step i x xs s s3 _ h fits is3
            (install_trans-Ends r (i + 1) xs s3 home (omega arith))))

  -- Both the disk and its readers have the copies of `w`'s blocks; nothing outside the log's slots
  -- from `i` on changed, also by a crash.
  abbrev pub Written : Disk → ℕ → List ℕ → Store → Run (Unit {0}) → Type 0
  Written w i xs s =
      Ends
        (λ _ s'.
          SameBut (start + i + 1) (start + size) s'.disk s.disk
          × SameBut (start + i + 1) (start + size) (view s') (view s)
          × IsLogged start s'.disk w i xs
          × IsLogged start (view s') w i xs)
        (λ d. SameBut (start + 1) (start + size) d s.disk)

  Written-step :
      (w : Disk) (i x : ℕ) (xs : List ℕ) (s s3 : Store) (l : Block) (r : Run (Unit {0}))
      → l ≡ w x
      → i + length (x ∷ xs) < size
      → Reads s3 (update s.disk (start + i + 1) l) (update (view s) (start + i + 1) l)
      → Written w (i + 1) xs s3 r
      → Written w i (x ∷ xs) s r
  Written-step w i x xs s s3 l r e fits (d3, v3) is =
      let slot = start + i + 1 in
      Ends-mono _ _ _ _ r is
        (λ _ s' (sd, sv, ld, lv). (
          (λ b out.
              sd b (omega (arith, out))
              ∙ d3 b
              ∙ update_ne s.disk slot l b (λ q. omega (arith, out, q))),
          (λ b out.
              sv b (omega (arith, out))
              ∙ v3 b
              ∙ update_ne (view s) slot l b (λ q. omega (arith, out, q))),
          (sd slot (omega arith) ∙ d3 slot ∙ update_self s.disk slot l ∙ e, ld),
          (sv slot (omega arith) ∙ v3 slot ∙ update_self (view s) slot l ∙ e, lv),
        ))
        (λ d same b out. same b out ∙ d3 b ∙ update_ne s.disk slot l b (λ q. omega (arith, out, q)))

  pub write_log-Ends :
      (w : Disk) (i : ℕ) (xs : List ℕ) (s : Store)
      → SameHome start size (view s) w
      → All (IsHome start size) xs
      → i + length xs < size
      → Written w i xs s (write_log start i xs s)
  unfolding write_log bread set_data
  write_log-Ends w i [] s cached home fits = ((λ b _. refl), (λ b _. refl), tt, tt)
  write_log-Ends w i (x ∷ xs) s cached (h, home) fits =
      let slot = start + i + 1 in
      bwrite-then slot _ s _ _ _ _ refl (rw (==_refl slot) refl)
        (view-copied s.cache s.disk slot x slot _) (λ b out. refl)
        (λ s3 (d3, v3).
          Written-step w i x xs s s3 _ _ (view-read s.cache s.disk slot x ∙ cached x h) fits
            (d3, v3)
            (write_log-Ends w (i + 1) xs s3
              (λ b hb. v3 b ∙ update_ne (view s) slot _ b (λ q. omega (arith, hb, q)) ∙ cached b hb)
              home (omega arith)))

  -- `write_head` writes the header only.
  pub write_head-Ends :
      (xs : List ℕ) (s : Store)
      → Ends
          (λ _ s'.
            Reads s'
              (update s.disk start (encode (view s start) xs))
              (update (view s) start (encode (view s start) xs)))
          (λ d. (b : ℕ) → d b ≡ s.disk b)
          (write_head start xs s)
  unfolding write_head bread set_data
  write_head-Ends xs s =
      let s1 = record s { cache = update s.cache start (some (view s start)) } in
      let h = encode (view s start) xs in
      let s2 = record s1 { cache = update s1.cache start (some h) } in
      Ends-tail _ _ (bwrite start s2) (
        bwrite-then start h s s2 _ _ _ refl (rw (==_refl start) refl)
          (λ b n. view-set s1.cache s.disk start (some h) b n ∙ view-read s.cache s.disk start b)
          (λ b. refl) (λ s3 is. is))
