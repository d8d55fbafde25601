-- ===== src/Uart.antt =====
-- kernel/uart.c: the ring of characters to send, and the loops on it. `uart_tx_lock` is held from one
-- `sleep` to the next, so a round of `uartputc` is one step. The registers of the device are
-- arguments: a read may change the device.
pub mod Sending
pub mod Draining
mod Tests
use csci5103_lab.Common.{
  ℕ, zero, suc, ◌+◌, ◌%◌, ◌^◌, Bool, true, false, Option, none, some, List, [], ◌∷◌, bit_and, ◌==◌,
  if◌then◌else◌,
}

abbrev pub uart_tx_buf_size : ℕ
uart_tx_buf_size = 32

abbrev pub lsr_rx_ready : ℕ
lsr_rx_ready = 1

abbrev pub lsr_tx_idle : ℕ
lsr_tx_idle = 32

abbrev pub uint64_mod : ℕ
uint64_mod = 2 ^ 64

pub record Uart : Type 0 where
  pub tx_buf : ℕ → ℕ
  pub tx_w : ℕ
  pub tx_r : ℕ

-- The reads of LSR, ISR and RHR and the write of THR
pub record Registers (D : Type 0) : Type 0 where
  pub read_lsr : D → ℕ × D
  pub read_isr : D → D
  pub read_rhr : D → ℕ × D
  pub write_thr : ℕ → D → D

-- The ring, the device, and how often `wakeup(&uart_tx_r)` was called
pub record Started (D : Type 0) : Type 0 where
  pub uart : Uart
  pub device : D
  pub wakeups : ℕ

-- A round of `uartputc`
pub data PutRound (D : Type 0) : Type 0 where
  spins sleeps : PutRound D
  puts : Option (Started D) → PutRound D

module _ {D : Type 0} (regs : Registers D) where
  -- The loop of `uartstart`, in at most `k` rounds; `none` is the end of the rounds.
  unfoldable pub uartstart_loop : ℕ → Uart → D → ℕ → Option (Started D)
  uartstart_loop zero u d n = none
  uartstart_loop (suc k) u d n =
      let lsr = regs.read_lsr d in
      let c = u.tx_buf (u.tx_r % uart_tx_buf_size) in
      let rest =
        uartstart_loop k (record u { tx_r = (u.tx_r + 1) % uint64_mod }) (regs.write_thr c lsr.1)
          (n + 1) in
      if u.tx_w == u.tx_r
      then some (record { uart = u; device = regs.read_isr d; wakeups = n })
      else if bit_and lsr.0 lsr_tx_idle == 0
      then some (record { uart = u; device = lsr.1; wakeups = n })
      else rest

  -- 32 characters, and the last test
  unfoldable pub uartstart : Uart → D → Option (Started D)
  uartstart u d = uartstart_loop (uart_tx_buf_size + 1) u d 0

  unfoldable pub uartputc_round : Uart → D → Bool → ℕ → PutRound D
  uartputc_round u d panicked c =
      if panicked
      then spins
      else if u.tx_w == (u.tx_r + uart_tx_buf_size) % uint64_mod
      then sleeps
      else puts (
          uartstart
            (record {
              tx_buf = λ j. if j == u.tx_w % uart_tx_buf_size then c else u.tx_buf j;
              tx_w = (u.tx_w + 1) % uint64_mod;
              tx_r = u.tx_r;
            })
            d)

  -- `none` for -1
  unfoldable pub uartgetc : D → Option ℕ × D
  uartgetc d =
      let lsr = regs.read_lsr d in
      let rhr = regs.read_rhr lsr.1 in
      if bit_and lsr.0 lsr_rx_ready == 0 then (none, lsr.1) else (some rhr.0, rhr.1)

  -- The first loop of `uartintr`, in at most `k` rounds: the characters that `consoleintr` gets, in order
  unfoldable pub uartintr_loop : ℕ → D → Option (List ℕ × D)
  uartintr_loop zero d = none
  uartintr_loop (suc k) d =
      let got = uartgetc d in
      elim got.0 [
        | none ↦ some ([], got.1)
        | some c ↦ elim (uartintr_loop k got.1) [ none ↦ none | some r ↦ some (c ∷ r.0, r.1) ]
      ]
