-- ===== src/Log/Store.antt =====
-- The disk and the buffer cache as kernel/log.c uses them through `bread`, `bwrite`, `bpin` and
-- `bunpin` of kernel/bio.c. A block is its 256 `int`s. Disk writes are atomic and happen in the order
-- of the calls; power can fail before any of them, when `budget` more have been made.
use csci5103_lab.Common.{ℕ, zero, suc, ◌+◌, ◌-◌, Option, none, some, ◌==◌, if◌then◌else◌}

abbrev pub Block : Type 0
Block = ℕ → ℕ

abbrev pub Disk : Type 0
Disk = ℕ → Block

abbrev pub update {ℓ} : {A : Type ℓ} → (ℕ → A) → ℕ → A → ℕ → A
update f i a j = if i == j then a else f j

pub record Store : Type 0 where
  pub disk : Disk
  pub cache : ℕ → Option Block
  pub pins : ℕ → ℕ
  pub budget : ℕ

-- What a run ends in: a result, or the disk as power fails.
pub data Run (A : Type 0) : Type 0 where
  done : A → Store → Run A
  crashed : Disk → Run A

abbrev pub M : Type 0 → Type 0
M A = Store → Run A

abbrev pub pure : {A : Type 0} → A → M A
pure a s = done a s

abbrev pub and_then : {A B : Type 0} → Run A → (A → M B) → Run B
and_then (done a s) f = f a s
and_then (crashed d) f = crashed d

infixl 5 ◌>>=◌ ◌>>◌
abbrev pub ◌>>=◌ : {A B : Type 0} → M A → (A → M B) → M B
◌>>=◌ m f s = and_then (m s) f

abbrev pub ◌>>◌ : {A B : Type 0} → M A → M B → M B
m >> k = m >>= λ _. k

-- What a reader of block `b` sees.
abbrev pub cached_or : Option Block → Block → Block
cached_or none d = d
cached_or (some c) d = c

abbrev pub view : Store → ℕ → Block
view s b = cached_or (s.cache b) (s.disk b)

-- `bread(dev, b)`: the block's buffer, read from the disk if it is not cached.
unfoldable pub bread : ℕ → M Block
bread b s = done (view s b) (record s { cache = update s.cache b (some (view s b)) })

-- An assignment to the data of the buffer of block `b`.
unfoldable pub set_data : ℕ → Block → M (Unit {0})
set_data b v s = done tt (record s { cache = update s.cache b (some v) })

-- `bwrite`
abbrev pub write_with : ℕ → ℕ → M (Unit {0})
write_with b zero s = crashed s.disk
write_with b (suc n) s = done tt (record s { disk = update s.disk b (view s b); budget = n })

unfoldable pub bwrite : ℕ → M (Unit {0})
bwrite b s = write_with b s.budget s

unfoldable pub bpin : ℕ → M (Unit {0})
bpin b s = done tt (record s { pins = update s.pins b (s.pins b + 1) })

unfoldable pub bunpin : ℕ → M (Unit {0})
bunpin b s = done tt (record s { pins = update s.pins b (s.pins b - 1) })

-- The store after power comes back: nothing is cached.
abbrev pub boot : ℕ → Disk → Store
boot budget d = record { disk = d; cache = λ b. none; pins = λ b. 0; budget = budget }
