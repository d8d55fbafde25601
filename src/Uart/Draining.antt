-- ===== src/Uart/Draining.antt =====
-- The ring of kernel/uart.c empties, if the device gets idle again and again.
use mathlib.Core.Path.{subst}
use csci5103_lab.Common.{
  ℕ, zero, suc, ◌+◌, ◌≤◌, ◌≡◌, ◌≢◌, ◌⊎◌, inl, inr, refl, sym, ap, arith, Option, none, some, List,
  [], ◌∷◌, ◌++◌, length, length-append, bit_and,
}
use csci5103_lab.Uart.{lsr_tx_idle, Uart, Registers, Started, uartstart}
use csci5103_lab.Uart.Sending.{IsRing, send_all, IdleFor, Sends, uartstart-Sends}

module _ {D : Type 0} (regs : Registers D) (wait : D → D) where
  -- `n` interrupts, with `wait` what the device does before each: the end of `uartintr`
  abbrev pub after_start : Option (Started D) → (Uart → D → Option (Uart × D)) → Option (Uart × D)
  after_start none later = none
  after_start (some s) later = later s.uart s.device

  unfoldable pub interrupts : ℕ → Uart → D → Option (Uart × D)
  interrupts zero u d = some (u, d)
  interrupts (suc n) u d = after_start (uartstart regs u (wait d)) (λ u' d'. interrupts n u' d')

  -- The device gets these characters, and no others, written to THR in this order, each while it is idle; between them
  -- are what it does before an interrupt, and the last read of an interrupt, of ISR or of LSR.
  pub data Receives : D → List ℕ → D → Type 0 where
    nothing : {d : D} → Receives d [] d
    interrupt :
        {d d' : D} (cs : List ℕ) {rest : List ℕ}
        → IdleFor regs cs (wait d)
        → (d1 : D)
        → (d1 ≡ regs.read_isr (send_all regs cs (wait d)))
          ⊎ (d1 ≡ (regs.read_lsr (send_all regs cs (wait d))).1)
        → Receives d1 rest d'
        → Receives d (cs ++ rest) d'

  last_read :
      {q : List ℕ} {r : ℕ} {d : D} {k : ℕ} {s : Started D} (g : Sends regs q r (wait d) k s)
      → (s.device ≡ regs.read_isr (send_all regs g.sent (wait d)))
        ⊎ (s.device ≡ (regs.read_lsr (send_all regs g.sent (wait d))).1)
  last_read g = elim g.ends [ inl (_, e) ↦ inl e | inr (_, _, e) ↦ inr e ]

  module _ (idle : (d : D) → bit_and (regs.read_lsr (wait d)).0 lsr_tx_idle ≢ 0) where
    -- An interrupt sends a character, if there is one.
    fewer_kept :
        (q : List ℕ) (r : ℕ) (d : D) (k n : ℕ) (s : Started D)
        → length q ≤ suc n
        → (g : Sends regs q r (wait d) k s) → length g.kept ≤ n
    fewer_kept q r d k n s h g = fewer g.sent g.kept g.order g.ends
      where
        fewer :
            (sent kept : List ℕ)
            → q ≡ sent ++ kept
            → ((kept ≡ []) × (s.device ≡ regs.read_isr (send_all regs sent (wait d))))
              ⊎ ((kept ≢ [])
                  × (bit_and (regs.read_lsr (send_all regs sent (wait d))).0 lsr_tx_idle ≡ 0)
                  × (s.device ≡ (regs.read_lsr (send_all regs sent (wait d))).1))
            → length kept ≤ n
        fewer sent kept order (inl (e, _)) = omega (arith, ap length e)
        fewer [] kept order (inr (_, e, _)) = absurd (idle d e)
        fewer (x ∷ sent) kept order (inr _) =
            omega (arith, h, ap length order, length-append sent kept)

    -- If the device is idle at the start of each of `n` interrupts, and no more than `n` characters are in the ring, then
    -- these interrupts write exactly those characters to THR, in their order and each while the device is idle, and the
    -- ring is empty after them.
    pub interrupts-Receives :
        (n : ℕ) (q : List ℕ) (u : Uart) (r : ℕ) (d : D)
        → IsRing u r q
        → length q ≤ n
        → (u' : Uart) × (d' : D) × (interrupts n u d ≡ some (u', d'))
          × IsRing u' (r + length q) []
          × Receives d q d'
    unfolding interrupts
    interrupts-Receives zero [] u r d is h =
        (u, d, refl, subst (λ i. IsRing u i []) (omega arith) is, nothing)
    interrupts-Receives zero (x ∷ q) u r d is h = absurd (omega (arith, h))
    interrupts-Receives (suc n) q u r d is h =
        let (s, e, g) = uartstart-Sends regs q u r (wait d) is in
        let (u', d', f, empty, got) =
          interrupts-Receives n g.kept s.uart (r + length g.sent) s.device g.ring
            (fewer_kept q r d 0 n s h g) in
        let total : r + length g.sent + length g.kept ≡ r + length q =
          omega (arith, ap length g.order, length-append g.sent g.kept) in
        (
          u',
          d',
          rw e f,
          subst (λ i. IsRing u' i []) total empty,
          subst (λ cs. Receives d cs d') (sym g.order)
              (interrupt g.sent g.idle s.device (last_read g) got),
        )
