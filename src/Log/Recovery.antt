-- ===== src/Log/Recovery.antt =====
-- `recover_from_log` of kernel/log.c: recovery replays the log, and may itself be cut short.
use mathlib.Core.Path.{subst}
use csci5103_lab.Common.{
  ℕ, ◌∷◌, ◌<◌, ◌≡◌, ◌≢◌, refl, sym, ap, ◌∙◌, arith, true, List, [], All, some, length,
}
use csci5103_lab.Log.Store.{Disk, Run, done, crashed, update, view, boot, bread}
use csci5103_lab.Log.Code.{decode, install_trans, write_head, read_head, recover_from_log}
use csci5103_lab.Log.Replay.{
  IsHome, IsHome-NotIn, SameHome, SameOff, put_all, replay, update_self, update_ne, put_all-copies,
  put_all-off, put_all-same, replay-same, decode-encode,
}
use csci5103_lab.Log.Ends.{Ends, Ends-bind, Ends-mono}
use csci5103_lab.Log.Loops.{view-read, install_trans-Ends, write_head-Ends}

-- A log that recovery can replay: its entries are at most `size - 1` blocks outside of it.
abbrev pub IsReplayable : ℕ → ℕ → Disk → Type 0
IsReplayable start size d =
    All (IsHome start size) (decode (d start)) × (length (decode (d start)) < size)

-- What recovery ends in, from a disk `d`: an empty log and the replayed blocks, or, if power fails, a
-- disk that means the same and that recovery can replay again.
abbrev pub Recovered : ℕ → ℕ → Disk → Run (List ℕ) → Type 0
Recovered start size d =
    Ends
      (λ lh s'.
        (lh ≡ [])
        × (decode (s'.disk start) ≡ [])
        × SameHome start size s'.disk (replay start d)
        × SameHome start size (view s') (replay start d))
      (λ d'. SameHome start size (replay start d') (replay start d) × IsReplayable start size d')

-- One recovery at boot, for a log that it can replay.
recover_once :
    (start size budget : ℕ) (d : Disk)
    → All (IsHome start size) (decode (d start))
    → length (decode (d start)) < size
    → Recovered start size d (recover_from_log start (boot budget d))
unfolding recover_from_log read_head bread
recover_once start size budget d home fits =
    let lh = decode (d start) in
    let s0 = boot budget d in
    let s1 = record s0 { cache = update s0.cache start (some (d start)) } in
    let seen : (b : ℕ) → view s1 b ≡ d b = view-read s0.cache d start in
    let meant : (f : Disk) (b : ℕ) → put_all (view s1) start 0 lh f b ≡ put_all d start 0 lh f b =
      λ f. put_all-copies start (view s1) d 0 lh f (λ j _ _. seen j) in
    Ends-bind _ _ _ _ (install_trans true start 0 lh) s1
      (Ends-mono _ _ _ _ (install_trans true start 0 lh s1)
        (install_trans-Ends start size true 0 lh s1 home (omega arith)) (λ _ s' is. is)
        (λ d' same. again d' same))
      (λ _ s2 (d2, v2).
        Ends-bind _ _ _ _ (write_head start []) s2
          (Ends-mono _ _ _ _ (write_head start [] s2) (write_head-Ends start size [] s2)
            (λ _ s' is. is)
            (λ d' same.
              again d' (λ j out. same j ∙ d2 j ∙ put_all-off start (view s1) 0 lh d j out)))
          (λ _ s3 (d3, v3). (
            refl,
            ap decode (d3 start ∙ update_self s2.disk start _) ∙ decode-encode (view s2 start) [],
            (λ b hb. d3 b ∙ update_ne s2.disk start _ b (apart b hb) ∙ d2 b ∙ meant d b),
            (λ b hb.
                v3 b
                ∙ update_ne (view s2) start _ b (apart b hb)
                ∙ v2 b
                ∙ meant (view s1) b
                ∙ put_all-same start d 0 lh (view s1) d (λ j _. seen j) b),
          )))
  where
    apart : (b : ℕ) → IsHome start size b → b ≢ start
    apart b hb e = omega (arith, hb, e, fits)

    -- A disk that differs in blocks of the log's entries only
    again :
        (d' : Disk)
        → SameOff (decode (d start)) d' d
        → SameHome start size (replay start d') (replay start d) × IsReplayable start size d'
    again d' same =
        let header : decode (d' start) ≡ decode (d start) = ap decode (
          same start (
            IsHome-NotIn start size (decode (d start)) start home (omega arith)
              (omega (arith, fits)))) in
        (
          (λ b hb. replay-same start size (decode (d start)) home fits d d' refl same b),
          (
            subst (All (IsHome start size)) (sym header) home,
            subst (λ (xs : List ℕ). length xs < size) (sym header) fits,
          ),
        )

-- Recovery at one boot after another, as long as power fails: each boot has its number of writes until then.
abbrev pub after_crash : Run (List ℕ) → (Disk → Run (List ℕ)) → Run (List ℕ)
after_crash (done lh s) next = done lh s
after_crash (crashed d) next = next d

abbrev pub boots : ℕ → List ℕ → ℕ → Disk → Run (List ℕ)
boots start [] budget d = recover_from_log start (boot budget d)
boots start (b ∷ bs) budget d =
    after_crash (recover_from_log start (boot b d)) (λ d'. boots start bs budget d')

Recovered-next :
    (start size : ℕ) (d : Disk) (r : Run (List ℕ)) (next : Disk → Run (List ℕ))
    → Recovered start size d r
    → ((d' : Disk) → IsReplayable start size d' → Recovered start size d' (next d'))
    → Recovered start size d (after_crash r next)
Recovered-next start size d (done lh s) next is later = is
Recovered-next start size d (crashed d') next (same, (home, fits)) later =
    Ends-mono _ _ _ _ (next d') (later d' (home, fits))
      (λ lh s (e, h, disk, seen).
        (e, h, (λ b hb. disk b hb ∙ same b hb), (λ b hb. seen b hb ∙ same b hb)))
      (λ d'' (again, replayable). ((λ b hb. again b hb ∙ same b hb), replayable))

-- At boot, for a log whose entries are at most `size - 1` blocks outside of it, and after any number of boots whose
-- recovery power cuts short after any number of writes: what the disk means outside the log stays the same,
-- also if power fails again, when the log's entries are still such blocks; and when recovery ends, the disk holds it,
-- readers see it, and the log is empty.
pub recover_from_log_lem :
    (start size : ℕ) (failures : List ℕ) (budget : ℕ) (d : Disk)
    → All (IsHome start size) (decode (d start))
    → length (decode (d start)) < size
    → Recovered start size d (boots start failures budget d)
recover_from_log_lem start size [] budget d home fits = recover_once start size budget d home fits
recover_from_log_lem start size (b ∷ bs) budget d home fits =
    Recovered-next start size d (recover_from_log start (boot b d)) (λ d'. boots start bs budget d')
      (recover_once start size b d home fits)
      (λ d' (home', fits'). recover_from_log_lem start size bs budget d' home' fits')
