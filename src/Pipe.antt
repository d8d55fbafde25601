-- ===== src/Pipe.antt =====
-- kernel/pipe.c: the ring of a pipe. The lock is held from one `sleep` to the next, so a round of a
-- loop is one step, and a call is a sequence of rounds with those of other processes between them.
-- What `copyin` and `copyout` return is an argument.
pub mod Fifo
mod Tests
use csci5103_lab.Common.{
  ℕ, ◌+◌, ◌%◌, ◌^◌, ◌||◌, ◌&&◌, Bool, true, false, not, Option, none, some, ◌==◌, if◌then◌else◌,
}

abbrev pub pipesize : ℕ
pipesize = 512

abbrev pub uint_mod : ℕ
uint_mod = 2 ^ 32

pub record Pipe : Type 0 where
  pub data_at : ℕ → ℕ
  pub nread : ℕ
  pub nwrite : ℕ
  pub readopen : Bool
  pub writeopen : Bool

-- The part of `pipealloc` that sets up the ring; its bytes are what the page held.
unfoldable pub pipe_init : (ℕ → ℕ) → Pipe
pipe_init page = record { data_at = page; nread = 0; nwrite = 0; readopen = true; writeopen = true }

-- It returns whether the page is freed.
unfoldable pub pipeclose : Pipe → Bool → Bool × Pipe
pipeclose pi writable =
    let pi' =
      if writable then record pi { writeopen = false } else record pi { readopen = false } in
    (not pi'.readopen && not pi'.writeopen, pi')

-- What processes sleep on: `&pi->nread` and `&pi->nwrite`
pub data Channel : Type 0 where
  nread_channel nwrite_channel : Channel

-- `write_sleep` has the channel that is woken and the channel that the writer then sleeps on.
pub data WriteRound : Type 0 where
  write_error write_break : WriteRound
  write_sleep : Channel → Channel → WriteRound
  wrote : Pipe → WriteRound

-- A round of the loop of `pipewrite`; `ch` is the byte that `copyin` gives, if it gives one.
unfoldable pub pipewrite_round : Pipe → Bool → Option ℕ → WriteRound
pipewrite_round pi killed ch =
    if not pi.readopen || killed
    then write_error
    else if pi.nwrite == (pi.nread + pipesize) % uint_mod
    then write_sleep nread_channel nwrite_channel
    else elim ch [
      | none ↦ write_break
      | some c ↦ wrote (record pi {
        data_at = λ j. if j == pi.nwrite % pipesize then c else pi.data_at j;
        nwrite = (pi.nwrite + 1) % uint_mod;
      })
    ]

-- A round of the first loop of `piperead`: whether it sleeps, fails, or goes on to copy.
pub data WaitRound : Type 0 where
  wait_error wait_over : WaitRound
  wait_sleep : Channel → WaitRound

unfoldable pub piperead_wait : Pipe → Bool → WaitRound
piperead_wait pi killed =
    if (pi.nread == pi.nwrite) && pi.writeopen
    then if killed then wait_error else wait_sleep nread_channel
    else wait_over

-- A round of the second loop before `copyout`: the byte, or `none` where the loop breaks.
unfoldable pub piperead_round : Pipe → Option (ℕ × Pipe)
piperead_round pi =
    if pi.nread == pi.nwrite
    then none
    else some (pi.data_at (pi.nread % pipesize), record pi { nread = (pi.nread + 1) % uint_mod })
