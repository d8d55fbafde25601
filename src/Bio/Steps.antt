-- ===== src/Bio/Steps.antt =====
-- The steps of kernel/bio.c, in any order. `held` counts the references that callers have to a
-- buffer.
use csci5103_lab.Common.{ℕ, ◌+◌, ◌-◌, ◌^◌, ◌<◌, ◌≡◌, ◌≢◌, some, ◌==◌, if◌then◌else◌}
use csci5103_lab.Sleeplock.{Sleeplock, acquiresleep_round}
use csci5103_lab.Bio.{
  nbuf, Cache, update, Disk, bget, binit, bread_fill, brelse_unlock, brelse_drop, bpin, bunpin,
}

pub record Use : Type 0 where
  pub cache : Cache
  pub held : ℕ → ℕ

abbrev pub plus : ℕ → (ℕ → ℕ) → (ℕ → ℕ)
plus b held = λ j. if j == b then held b + 1 else held j

abbrev pub minus : ℕ → (ℕ → ℕ) → (ℕ → ℕ)
minus b held = λ j. if j == b then held b - 1 else held j

-- No file system has the device 0, which unused buffers name at first.
pub data Step (disk : Disk) : Use → Use → Type 0 where
  gets :
      {c c' : Cache} {held : ℕ → ℕ} (b dev blockno : ℕ)
      → dev ≢ 0
      → held b + 1 < 2 ^ 32
      → bget dev blockno c ≡ some (b, c')
      → Step disk (record { cache = c; held = held }) (record { cache = c'; held = plus b held })
  locks :
      {c : Cache} {held : ℕ → ℕ} (pid b : ℕ) (lk : Sleeplock)
      → acquiresleep_round pid (c.bufs b).lock ≡ some lk
      → Step disk
          (record { cache = c; held = held })
          (record { cache = update c b (record (c.bufs b) { lock = lk }); held = held })
  fills :
      {c : Cache} {held : ℕ → ℕ} (b : ℕ)
      → Step disk
          (record { cache = c; held = held })
          (record { cache = bread_fill disk b c; held = held })
  unlocks :
      {c c' : Cache} {held : ℕ → ℕ} (pid b : ℕ)
      → brelse_unlock pid b c ≡ some c'
      → Step disk (record { cache = c; held = held }) (record { cache = c'; held = held })
  drops :
      {c : Cache} {held : ℕ → ℕ} (b : ℕ)
      → b < nbuf
      → 0 < held b
      → Step disk
          (record { cache = c; held = held })
          (record { cache = brelse_drop b c; held = minus b held })
  pins :
      {c : Cache} {held : ℕ → ℕ} (b : ℕ)
      → b < nbuf
      → held b + 1 < 2 ^ 32
      → Step disk
          (record { cache = c; held = held })
          (record { cache = bpin b c; held = plus b held })
  unpins :
      {c : Cache} {held : ℕ → ℕ} (b : ℕ)
      → b < nbuf
      → 0 < held b
      → Step disk
          (record { cache = c; held = held })
          (record { cache = bunpin b c; held = minus b held })

-- What `binit` finds: the zeroed memory of the kernel.
pub data Reach (disk : Disk) : Use → Type 0 where
  start :
      (c : Cache)
      → ((b : ℕ) → (c.bufs b).refcnt ≡ 0)
      → ((b : ℕ) → (c.bufs b).dev ≡ 0)
      → Reach disk (record { cache = binit c; held = λ b. 0 })
  next : {u v : Use} → Reach disk u → Step disk u v → Reach disk v
