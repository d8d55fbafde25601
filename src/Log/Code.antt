-- ===== src/Log/Code.antt =====
-- The functions of kernel/log.c that read and write blocks. `log.lh` is the list of the first `n`
-- entries of `block`, and `brelse` changes nothing here.
use csci5103_lab.Common.{
  ℕ, zero, suc, ◌+◌, ◌-◌, Bool, true, false, List, [], ◌∷◌, ltb, leb, ◌==◌, if◌then◌else◌, length,
  get_or,
}
use csci5103_lab.Log.Store.{Block, M, pure, ◌>>=◌, ◌>>◌, bread, set_data, bwrite, bunpin}

-- `struct logheader` in a block: word 0 is `n`, the words behind it are `block`.
unfoldable pub read_entries : Block → ℕ → ℕ → List ℕ
read_entries h i zero = []
read_entries h i (suc k) = h (i + 1) ∷ read_entries h (i + 1) k

unfoldable pub decode : Block → List ℕ
decode h = read_entries h 0 (h 0)

-- Words behind the entries keep what the buffer held.
unfoldable pub encode : Block → List ℕ → Block
encode h bs w = if w == 0 then length bs else if leb w (length bs) then get_or bs (w - 1) 0 else h w

-- A loop over the log's blocks from index `i` on: `start + i + 1` is the log block.
unfoldable pub install_trans : Bool → ℕ → ℕ → List ℕ → M (Unit {0})
install_trans recovering start i [] = pure tt
install_trans recovering start i (b ∷ bs) = do
  l ← bread (start + i + 1)
  bread b
  set_data b l
  bwrite b
  if recovering then pure tt else bunpin b
  install_trans recovering start (i + 1) bs

unfoldable pub write_log : ℕ → ℕ → List ℕ → M (Unit {0})
write_log start i [] = pure tt
write_log start i (b ∷ bs) = do
  bread (start + i + 1)
  from ← bread b
  set_data (start + i + 1) from
  bwrite (start + i + 1)
  write_log start (i + 1) bs

unfoldable pub read_head : ℕ → M (List ℕ)
read_head start = do h ← bread start; pure (decode h)

unfoldable pub write_head : ℕ → List ℕ → M (Unit {0})
write_head start lh = do h ← bread start; set_data start (encode h lh); bwrite start

unfoldable pub recover_from_log : ℕ → M (List ℕ)
recover_from_log start = do
  lh ← read_head start
  install_trans true start 0 lh
  write_head start []
  pure []

-- `commit` returns the new `log.lh`.
unfoldable pub commit : ℕ → List ℕ → M (List ℕ)
commit start lh =
    if ltb 0 (length lh)
    then (do
      write_log start 0 lh
      write_head start lh
      install_trans false start 0 lh
      write_head start []
      pure [])
    else pure lh
