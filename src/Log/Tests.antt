-- ===== src/Log/Tests.antt =====
-- Theorems on kernel/log.c applied to a small disk, with the log in blocks 2 to 31.
use csci5103_lab.Common.{
  true, false, ℕ, ◌≡◌, refl, inr, arith, NotIn, [], ◌∷◌, ◌==◌, if◌then◌else◌, none, some,
}
use csci5103_lab.Log.Store.{Block, Disk, Store, view}
use csci5103_lab.Log.Code.{read_entries, decode, commit}
use csci5103_lab.Log.Recovery.{Recovered, boots, recover_from_log_lem}
use csci5103_lab.Log.Ops.{Log, ok, begin_op, end_op, absorb, log_write}
use csci5103_lab.Log.Reserved.{Reach, start, next, begins, writes, new_log}
use csci5103_lab.Log.Space.{Writes, log_write-Writes, end_op-last}
use csci5103_lab.Log.Commit.{Committed, commit_lem}

-- A block that holds its own number everywhere.
abbrev numbered : Disk
numbered b w = b

-- A header with one entry, block 40.
abbrev one_entry : Block
one_entry w = if w == 0 then 1 else 40

abbrev logged : Disk
logged b = if b == 2 then one_entry else numbered b

-- Power fails before the first write, then after one, before recovery ends.
recover_from_log_lem_example : Recovered 2 30 logged (boots 2 (0 ∷ 1 ∷ []) 2 logged)
unfolding decode read_entries
recover_from_log_lem_example =
    recover_from_log_lem 2 30 (0 ∷ 1 ∷ []) 2 logged (inr (omega arith), tt) (omega arith)

-- A disk with an empty log, and a new block 40 in the cache.
abbrev no_entry : Block
no_entry w = 0

abbrev idle : Disk
idle b = if b == 2 then no_entry else numbered b

abbrev changed : Store
changed = record {
  disk = idle;
  cache = λ b. if b == 40 then some no_entry else none;
  pins = λ b. 0;
  budget = 3;
}

changed-others : (b : ℕ) → NotIn b (40 ∷ []) → idle b ≡ view changed b
changed-others b (n, _) = ground arith

commit_lem_example : Committed 2 30 changed (commit 2 (40 ∷ []) changed)
unfolding decode read_entries
commit_lem_example =
    commit_lem 2 30 (40 ∷ []) (inr (omega arith), tt) (omega arith) changed refl
      (λ b _ out. changed-others b out)

-- One operation has begun, in a log of 30 blocks, and has recorded block 40.
abbrev begun : Log
begun = record { size = 30; outstanding = 1; committing = false; lh = [] }

abbrev wrote_one : Log
wrote_one = record begun { lh = 40 ∷ [] }

begun-Reach : Reach (new_log 30) begun (0 ∷ [])
unfolding begin_op
begun-Reach = next start (begins refl)

wrote_one-Reach : Reach (new_log 30) wrote_one (1 ∷ [])
unfolding log_write absorb
wrote_one-Reach = next begun-Reach (writes {pinned = true} 0 40 (omega arith) (omega arith) refl)

log_write-Writes_example : Writes 30 41 wrote_one (log_write 41 wrote_one)
log_write-Writes_example =
    log_write-Writes 30 wrote_one (1 ∷ []) 0 41 wrote_one-Reach (omega arith) (omega arith)

end_op-last_example : end_op begun ≡ ok true (record begun { outstanding = 0; committing = true })
end_op-last_example = end_op-last 30 begun (0 ∷ []) begun-Reach (omega arith)
