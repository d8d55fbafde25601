-- ===== src/Uart/Tests.antt =====
-- The theorems about kernel/uart.c at a concrete ring and a device that is idle twice.
use csci5103_lab.Common.{
  ℕ, ◌+◌, ◌-◌, ◌<◌, ◌%◌, ◌^◌, get_or, ◌≡◌, refl, arith, zero, suc, [], ◌∷◌, false, some,
}
use csci5103_lab.Uart.{Uart, Registers, uartputc_round}
use csci5103_lab.Uart.Draining.{interrupts, Receives, interrupts-Receives}
use csci5103_lab.Uart.Sending.{IsRing, Puts, uartputc_round-Puts}

-- The device is the number of characters that it still takes.
abbrev counting_device : Registers ℕ
counting_device = record {
  read_lsr = λ d. elim d [ zero ↦ (0, 0) | suc n ↦ (32, suc n) ];
  read_isr = λ d. d;
  read_rhr = λ d. (0, d);
  write_thr = λ c d. d - 1;
}

abbrev two_left : Uart
two_left = record { tx_buf = λ j. 60 + j; tx_w = 1; tx_r = 2 ^ 64 - 1 }

two_left-IsRing : IsRing two_left (2 ^ 64 - 1) (91 ∷ 60 ∷ [])
two_left-IsRing = record {
  read_count = refl;
  write_count = refl;
  fits = omega arith;
  bytes = two_bytes;
}
  where
    two_bytes :
        (i : ℕ) → i < 2 → two_left.tx_buf ((2 ^ 64 - 1 + i) % 32) ≡ get_or (91 ∷ 60 ∷ []) i 0
    two_bytes zero h = refl
    two_bytes (suc zero) h = refl
    two_bytes (suc (suc i)) h = absurd (omega (arith, h))

uartputc_round-Puts_example :
    Puts counting_device
      (91 ∷ 60 ∷ [])
      (2 ^ 64 - 1)
      2
      7
      (uartputc_round counting_device two_left 2 false 7)
uartputc_round-Puts_example =
    uartputc_round-Puts counting_device (91 ∷ 60 ∷ []) two_left (2 ^ 64 - 1) 2 7 two_left-IsRing

-- A device that takes one character between two interrupts
interrupts-Receives_example :
    (u' : Uart) × (d' : ℕ) × (interrupts counting_device (λ _. 1) 5 two_left 0 ≡ some (u', d'))
    × IsRing u' (2 ^ 64 - 1 + 2) []
    × Receives counting_device (λ _. 1) 0 (91 ∷ 60 ∷ []) d'
interrupts-Receives_example =
    interrupts-Receives counting_device (λ _. 1) (λ d e. absurd (omega (arith, e))) 5 (91 ∷ 60 ∷ [])
      two_left (2 ^ 64 - 1) 0 two_left-IsRing (omega arith)
