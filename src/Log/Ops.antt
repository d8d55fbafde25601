-- ===== src/Log/Ops.antt =====
-- The transactions of kernel/log.c: `begin_op`, `end_op` and `log_write` on `struct log`. Each holds the
-- lock from its start to its end, so it is one step; `sleep` ends the step and the loop tries again.
use csci5103_lab.Common.{
  ℕ, ◌+◌, ◌-◌, ◌*◌, Bool, true, false, ◌||◌, List, [], ◌∷◌, length, ltb, leb, ◌==◌, if◌then◌else◌,
}

-- `MAXOPBLOCKS` and `LOGSIZE` of kernel/param.h
abbrev pub maxopblocks : ℕ
maxopblocks = 10

abbrev pub logsize : ℕ
logsize = maxopblocks * 3

-- `lh` is the list of the first `n` entries of `lh.block`.
pub record Log : Type 0 where
  pub size : ℕ
  pub outstanding : ℕ
  pub committing : Bool
  pub lh : List ℕ

pub data OpPanic : Type 0 where
  committing too_big_a_transaction log_write_outside_of_trans : OpPanic

-- `negative` is `outstanding` below 0, which no caller reaches and the model does not go on from.
pub data Result (A : Type 0) : Type 0 where
  ok : A → Log → Result A
  sleep negative : Result A
  panic : OpPanic → Result A

-- One round of the loop.
unfoldable pub begin_op : Log → Result (Unit {0})
begin_op l =
    if l.committing
    then sleep
    else if ltb logsize (length l.lh + (l.outstanding + 1) * maxopblocks)
    then sleep
    else ok tt (record l { outstanding = l.outstanding + 1 })

-- The part of `end_op` before `commit`; it returns `do_commit`.
unfoldable pub end_op : Log → Result Bool
end_op l =
    if l.outstanding == 0
    then negative
    else if l.committing
    then panic OpPanic.committing
    else if l.outstanding - 1 == 0
    then ok true (record l { outstanding = l.outstanding - 1; committing = true })
    else ok false (record l { outstanding = l.outstanding - 1 })

-- The part of `end_op` after `commit`, which leaves `lh` empty.
unfoldable pub end_commit : Log → Log
end_commit l = record l { committing = false; lh = [] }

-- The loop over the entries, the assignment, and the new entry where no old one is found.
unfoldable pub absorb : ℕ → List ℕ → List ℕ
absorb b [] = b ∷ []
absorb b (x ∷ xs) = let rest = absorb b xs in if x == b then b ∷ xs else x ∷ rest

-- It returns whether the buffer is pinned.
unfoldable pub log_write : ℕ → Log → Result Bool
log_write b l =
    if leb logsize (length l.lh) || leb (l.size - 1) (length l.lh)
    then panic OpPanic.too_big_a_transaction
    else if ltb l.outstanding 1
    then panic OpPanic.log_write_outside_of_trans
    else ok (ltb (length l.lh) (length (absorb b l.lh))) (record l { lh = absorb b l.lh })
