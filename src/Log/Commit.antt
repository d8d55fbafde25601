-- ===== src/Log/Commit.antt =====
-- `commit` of kernel/log.c: the write of the header makes a transaction happen, as a whole or not
-- at all.
use csci5103_lab.Common.{
  ltb, Bool-cases, ℕ, ◌+◌, ◌<◌, ◌≤◌, ◌≡◌, ◌≢◌, ◌⊎◌, inl, inr, refl, ap, ◌∙◌, arith, false, List, [],
  ◌∷◌, All, NotIn, length,
}
use csci5103_lab.Log.Store.{Disk, Store, Run, update, view, pure, ◌>>◌}
use csci5103_lab.Log.Code.{decode, encode, install_trans, write_log, write_head, commit}
use csci5103_lab.Log.Replay.{
  IsHome, SameHome, SameBut, SameOff, IsLogged, replay, update_self, update_ne, put_all-off,
  put_all-logged, replay-empty, replay-logged, IsHome-NotIn, IsLogged-same, decode-encode,
}
use csci5103_lab.Log.Ends.{Ends, Ends-bind, Ends-mono}
use csci5103_lab.Log.Loops.{install_trans-Ends, write_log-Ends, write_head-Ends}

nothing-left : (xs : List ℕ) → ltb 0 (length xs) ≡ false → xs ≡ []
nothing-left [] e = refl
nothing-left (x ∷ xs) e = ground arith

nothing-NotIn : (b : ℕ) (xs : List ℕ) → ltb 0 (length xs) ≡ false → NotIn b xs
nothing-NotIn b [] e = tt
nothing-NotIn b (x ∷ xs) e = absurd (ground arith)

module _ (start size : ℕ) where
  -- The disk means all of the old blocks or all of the new ones.
  abbrev pub AllOrNothing : Disk → Disk → Disk → Type 0
  AllOrNothing old new d =
      SameHome start size (replay start d) old ⊎ SameHome start size (replay start d) new

  -- What `commit` ends in, for a store `s` whose readers see the new blocks.
  abbrev pub Committed : Store → Run (List ℕ) → Type 0
  Committed s =
      Ends
        (λ lh' s'.
          (lh' ≡ [])
          × (decode (s'.disk start) ≡ [])
          × SameHome start size s'.disk (view s)
          × SameHome start size (view s') (view s))
        (AllOrNothing s.disk (view s))

  module _ (lh : List ℕ) (home : All (IsHome start size) lh) (fits : length lh < size) where
    -- The log holds the blocks `lh` of `w`, and what is not in it is on the disk.
    record IsCommitted (w d : Disk) : Type 0 where
      header : decode (d start) ≡ lh
      copies : IsLogged start d w 0 lh
      others : (b : ℕ) → IsHome start size b → NotIn b lh → d b ≡ w b

    IsCommitted-replay : (w d : Disk) → IsCommitted w d → SameHome start size (replay start d) w
    IsCommitted-replay w d is b hb =
        replay-logged start size lh home fits d w b is.header is.copies (is.others b hb)

    -- A change of blocks that are in the log does no harm.
    IsCommitted-off : (w d d' : Disk) → IsCommitted w d → SameOff lh d' d → IsCommitted w d'
    IsCommitted-off w d d' is same = record {
      header = ap decode (inside start (omega arith) (omega arith)) ∙ is.header;
      copies =
          IsLogged-same start size d' d w 0 lh (λ j low high. inside j (omega arith) (omega arith))
            is.copies;
      others = λ b hb out. same b out ∙ is.others b hb out;
    }
      where
        inside : (j : ℕ) → start ≤ j → j < start + size → d' j ≡ d j
        inside j low high = same j (IsHome-NotIn start size lh j home low high)

    -- The log after `write_log` and `write_head`.
    written-IsCommitted :
        (w d : Disk) (s1 s2 : Store)
        → ((b : ℕ) → IsHome start size b → NotIn b lh → d b ≡ w b)
        → SameBut (start + 0 + 1) (start + size) s1.disk d
        → IsLogged start s1.disk w 0 lh
        → ((b : ℕ) → s2.disk b ≡ update s1.disk start (encode (view s1 start) lh) b)
        → IsCommitted w s2.disk
    written-IsCommitted w d s1 s2 clean same logged head = record {
      header =
          ap decode (head start ∙ update_self s1.disk start _) ∙ decode-encode (view s1 start) lh;
      copies =
          IsLogged-same start size s2.disk s1.disk w 0 lh
            (λ j low high. head j ∙ update_ne s1.disk start _ j (λ e. omega (arith, e))) logged;
      others = λ b hb out.
          head b
          ∙ update_ne s1.disk start _ b (λ e. omega (arith, hb, e))
          ∙ same b (omega (arith, hb))
          ∙ clean b hb out;
    }

    -- The last two steps: the copies go home and the header is cleared.
    install-Ends :
        (s s2 : Store)
        → IsCommitted (view s) s2.disk
        → IsLogged start (view s2) (view s) 0 lh
        → SameHome start size (view s2) (view s)
        → Committed s ((install_trans false start 0 lh >> (write_head start [] >> pure [])) s2)
    install-Ends s s2 is logged sees =
        Ends-bind _ _ _ _ (install_trans false start 0 lh) s2
          (Ends-mono _ _ _ _ (install_trans false start 0 lh s2)
            (install_trans-Ends start size false 0 lh s2 home (omega arith)) (λ _ s' r. r)
            (λ d same. inr (IsCommitted-replay w d (IsCommitted-off w s2.disk d is same))))
          (λ _ s3 (d3, v3).
            Ends-bind _ _ _ _ (write_head start []) s3
              (Ends-mono _ _ _ _ (write_head start [] s3) (write_head-Ends start size [] s3)
                (λ _ s' r. r)
                (λ d same. inr (
                  IsCommitted-replay w d (
                    IsCommitted-off w s2.disk d is
                      (λ b out. same b ∙ d3 b ∙ put_all-off start (view s2) 0 lh s2.disk b out)))))
              (λ _ s4 (d4, v4). (
                refl,
                ap decode (d4 start ∙ update_self s3.disk start _)
                    ∙ decode-encode (view s3 start) [],
                (λ b hb.
                    d4 b
                    ∙ update_ne s3.disk start _ b (apart b hb)
                    ∙ d3 b
                    ∙ put_all-logged start (view s2) w 0 lh s2.disk b logged (is.others b hb)),
                (λ b hb.
                    v4 b
                    ∙ update_ne (view s3) start _ b (apart b hb)
                    ∙ v3 b
                    ∙ put_all-logged start (view s2) w 0 lh (view s2) b logged (λ _. sees b hb)),
              )))
      where
        w : Disk
        w = view s

        apart : (b : ℕ) → IsHome start size b → b ≢ start
        apart b hb e = omega (arith, hb, e, fits)

    -- `commit`, for a log that is empty on the disk, at most `size - 1` blocks outside the log in the
    -- transaction, and all other blocks outside the log the same in the cache and on the disk:
    -- however many writes take effect before power fails, the disk means all the old blocks or all
    -- the new ones; and when `commit` ends, the disk holds the new ones, which readers see as before,
    -- and the log is empty.
    pub commit_lem :
        (s : Store)
        → decode (s.disk start) ≡ []
        → ((b : ℕ) → IsHome start size b → NotIn b lh → s.disk b ≡ view s b)
        → Committed s (commit start lh s)
    unfolding commit
    commit_lem s empty clean = elim (Bool-cases (ltb 0 (length lh))) [
      | inr none ↦ rw none (
        nothing-left lh none,
        empty,
        (λ b hb. clean b hb (nothing-NotIn b lh none)),
        (λ b hb. refl),
      )
      | inl some_left ↦ rw some_left (
          Ends-bind _ _ _ _ (write_log start 0 lh) s
            (Ends-mono _ _ _ _ (write_log start 0 lh s)
              (write_log-Ends start size (view s) 0 lh s (λ b _. refl) home (omega arith))
              (λ _ s' r. r) (λ d same. inl (before d same)))
            (λ _ s1 (sd, sv, ld, lv).
              Ends-bind _ _ _ _ (write_head start lh) s1
                (Ends-mono _ _ _ _ (write_head start lh s1) (write_head-Ends start size lh s1)
                  (λ _ s' r. r)
                  (λ d same. inl (before d (λ j out. same j ∙ sd j (omega (arith, out))))))
                (λ _ s2 (d2, v2).
                  install-Ends s s2 (written-IsCommitted (view s) s.disk s1 s2 clean sd ld d2)
                    (IsLogged-same start size (view s2) (view s1) (view s) 0 lh
                      (λ j low high. v2 j ∙ update_ne (view s1) start _ j (λ e. omega (arith, e)))
                      lv)
                    (λ b hb.
                      v2 b
                      ∙ update_ne (view s1) start _ b (λ e. omega (arith, hb, e, fits))
                      ∙ sv b (omega (arith, hb))))))
    ]
      where
        before :
            (d : Disk)
            → SameBut (start + 1) (start + size) d s.disk
            → SameHome start size (replay start d) s.disk
        before d same b hb =
            replay-empty start size d (ap decode (same start (omega arith)) ∙ empty) b
            ∙ same b (omega (arith, hb))
