-- ===== src/Log/Space.antt =====
-- What `log_write` and `end_op` of kernel/log.c end in, in the states of operations that take no more than their room.
use csci5103_lab.Common.{
  leb-eq-false, ltb-eq-false, ==_iff, ℕ, zero, suc, ◌-◌, ◌<◌, ◌≤◌, ◌≡◌, refl, arith, Bool, true,
  false, List, [], ◌∷◌, NotIn, length, length-append, get_or, set, sym, ◌++◌, ==_false, lt→ltb,
  Bool-cases, ltb, leb, ◌==◌, if◌then◌else◌, length-set, ap, inl, inr,
}
use csci5103_lab.Log.Ops.{
  maxopblocks, logsize, OpPanic, Log, Result, ok, sleep, negative, panic, end_op, absorb, log_write,
}
use csci5103_lab.Log.Reserved.{Reach, sum-bound, sum-set, All-set, new_log, Reach-IsReserved}

-- The block numbers of the log once block `b` is recorded: unchanged if `b` is among them, and with `b` behind
-- them otherwise, when its buffer is pinned.
pub record Records (b : ℕ) (lh lh' : List ℕ) (pinned : Bool) : Type 0 where
  pub found : (i : ℕ) → i < length lh → get_or lh i 0 ≡ b → (lh' ≡ lh) × (pinned ≡ false)
  pub added : NotIn b lh → (lh' ≡ lh ++ b ∷ []) × (pinned ≡ true)

absorb_found : (b : ℕ) (lh : List ℕ) (i : ℕ) → i < length lh → get_or lh i 0 ≡ b → absorb b lh ≡ lh
unfolding absorb
absorb_found b [] i h e = absurd (omega (arith, h))
absorb_found b (x ∷ lh) zero h e = rw ((==_iff x b).1 e) (ap (λ y. y ∷ lh) (sym e))
absorb_found b (x ∷ lh) (suc i) h e = elim (Bool-cases (x == b)) [
  | inl here ↦ rw here (ap (λ y. y ∷ lh) (sym ((==_iff x b).0 here)))
  | inr other ↦ rw other (ap (λ ys. x ∷ ys) (absorb_found b lh i (omega (arith, h)) e))
]

absorb_added : (b : ℕ) (lh : List ℕ) → NotIn b lh → absorb b lh ≡ lh ++ b ∷ []
unfolding absorb
absorb_added b [] out = refl
absorb_added b (x ∷ lh) (n, out) =
    rw (==_false x b (λ e. n (sym e))) (ap (λ ys. x ∷ ys) (absorb_added b lh out))

absorb-Records :
    (b : ℕ) (lh : List ℕ) → Records b lh (absorb b lh) (ltb (length lh) (length (absorb b lh)))
absorb-Records b lh = record {
  found = λ i h e.
      let same = absorb_found b lh i h e in
      (same, rw same (ltb-eq-false (length lh) (length lh) (omega arith)));
  added = λ out.
      let new = absorb_added b lh out in
      (
        new,
        rw new
            (lt→ltb (length lh) (length (lh ++ b ∷ [])) (omega (arith, length-append lh (b ∷ [])))),
      );
}

-- What `log_write` of a running operation with blocks left ends in: the block is recorded, or the log is full, with
-- all blocks but one of it taken and fewer than `LOGSIZE`.
abbrev pub Writes : ℕ → ℕ → Log → Result Bool → Type 0
Writes size b l (ok pinned l') =
    (length l.lh < size - 1) × (l' ≡ record l { lh = l'.lh }) × Records b l.lh l'.lh pinned
Writes size b l sleep = ⊥
Writes size b l negative = ⊥
Writes size b l (panic p) =
    (p ≡ OpPanic.too_big_a_transaction) × (size - 1 ≤ length l.lh) × (length l.lh < logsize)

-- In every state that `begin_op`, `end_op`, `commit` and `log_write` reach from an empty log of any
-- size, with at most `MAXOPBLOCKS` calls of `log_write` for each operation, the next call of an operation that
-- has made fewer is in the log's room of `LOGSIZE` blocks. If fewer than `size - 1` blocks are recorded, it records its
-- block, which is added and pinned exactly if it was not recorded before, and changes nothing else; otherwise it
-- panics with "too big a transaction". So a log of more than `LOGSIZE` blocks never does, and one of `LOGSIZE` blocks
-- does with `LOGSIZE - 1` blocks recorded.
pub log_write-Writes :
    (size : ℕ) (l : Log) (used : List ℕ) (k b : ℕ)
    → Reach (new_log size) l used
    → k < length used
    → get_or used k 0 < maxopblocks
    → Writes size b l (log_write b l)
unfolding log_write
log_write-Writes size l used k b r h room =
    let is = Reach-IsReserved size l used r in
    let after = set used k (suc (get_or used k 0)) in
    let most = sum-bound after (All-set used k _ room is.bounded) in
    let below : length l.lh < logsize =
      omega (arith, is.room, most, sum-set used k h, length-set used k (suc (get_or used k 0))) in
    let not_full = leb-eq-false logsize (length l.lh) below in
    let inside = ltb-eq-false l.outstanding 1 (omega (arith, is.counted, h)) in
    elim (Bool-cases (leb (l.size - 1) (length l.lh))) [
      | inl full ↦ rw (not_full, full) (refl, ground (arith, full, is.sized), below)
      | inr space ↦
          rw (not_full, space, inside)
            (ground (arith, space, is.sized), refl, absorb-Records b l.lh)
    ]

-- In the same states, `end_op` of a running operation does not panic, and commits exactly if no other
-- operation is running.
pub end_op-last :
    (size : ℕ) (l : Log) (used : List ℕ)
    → Reach (new_log size) l used
    → 0 < length used
    → end_op l
      ≡ ok
          (length used == 1)
          (record l { outstanding = length used - 1; committing = length used == 1 })
unfolding end_op
end_op-last size l used r h =
    let is = Reach-IsReserved size l used r in
    elim (Bool-cases l.committing) [
      | inl busy ↦ absurd (omega (arith, h, is.quiet busy))
      | inr calm ↦ rw (is.counted, calm) (split (length used) h)
    ]
  where
    split :
        (n : ℕ)
        → 0 < n
        → (if n == 0
            then negative
            else if n - 1 == 0
            then ok true (record l { outstanding = n - 1; committing = true })
            else ok false (record l { outstanding = n - 1; committing = false }))
          ≡ ok (n == 1) (record l { outstanding = n - 1; committing = n == 1 })
    split zero h = absurd (omega arith)
    split (suc zero) h = refl
    split (suc (suc n)) h = ground arith
