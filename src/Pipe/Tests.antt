-- ===== src/Pipe/Tests.antt =====
-- Theorems on kernel/pipe.c applied to a pipe that holds one byte.
use csci5103_lab.Common.{zero, suc, get_or, ◌<◌, ℕ, ◌≡◌, refl, arith, true, false, [], ◌∷◌, some}
use csci5103_lab.Pipe.{Pipe, pipewrite_round, piperead_round}
use csci5103_lab.Pipe.Fifo.{IsQueue, Accepts, Gives, pipewrite_round-Accepts, piperead_round-Gives}

abbrev one_byte : Pipe
one_byte = record {
  data_at = λ j. 65;
  nread = 4294967295;
  nwrite = 0;
  readopen = true;
  writeopen = true;
}

one_byte-IsQueue : IsQueue one_byte 4294967295 (65 ∷ [])
one_byte-IsQueue = record {
  read_count = refl;
  write_count = refl;
  fits = omega arith;
  bytes = only;
}
  where
    only : (i : ℕ) → i < 1 → one_byte.data_at i ≡ get_or (65 ∷ []) i 0
    only zero h = refl
    only (suc i) h = absurd (omega arith)

pipewrite_round-Accepts_example :
    Accepts 4294967295 (65 ∷ []) 66 (pipewrite_round one_byte false (some 66))
pipewrite_round-Accepts_example =
    pipewrite_round-Accepts one_byte 4294967295 (65 ∷ []) 66 one_byte-IsQueue refl

piperead_round-Gives_example : Gives 4294967295 (65 ∷ []) (piperead_round one_byte)
piperead_round-Gives_example = piperead_round-Gives one_byte 4294967295 (65 ∷ []) one_byte-IsQueue
