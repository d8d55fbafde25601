-- ===== src/Uart/Sending.antt =====
-- The characters of kernel/uart.c leave in the order in which they came.
use mathlib.Core.Path.{subst}
use csci5103_lab.Common.{
  ℕ, zero, suc, ◌+◌, ◌%◌, ◌≤◌, ◌<◌, ◌≡◌, ◌≢◌, ◌⊎◌, inl, inr, refl, sym, ap, ◌∙◌, arith, true, false,
  Option, some, List, [], ◌∷◌, ◌++◌, length, length-append, get_or, get_or-last, get_or-front,
  bit_and, ◌==◌, if◌then◌else◌, Bool-cases, differ, ==_iff,
}
use csci5103_lab.Uart.{
  uart_tx_buf_size, lsr_tx_idle, uint64_mod, Uart, Registers, Started, PutRound, spins, sleeps,
  puts, uartstart_loop, uartstart, uartputc_round,
}

-- The ring holds `q`, and `r` characters were sent so far.
pub record IsRing (u : Uart) (r : ℕ) (q : List ℕ) : Type 0 where
  pub read_count : u.tx_r ≡ r % uint64_mod
  pub write_count : u.tx_w ≡ (r + length q) % uint64_mod
  pub fits : length q ≤ uart_tx_buf_size
  pub bytes : (i : ℕ) → i < length q → u.tx_buf ((r + i) % uart_tx_buf_size) ≡ get_or q i 0

-- The counters differ by the length of the queue.
all_taken :
    (r n : ℕ)
    → n ≤ 32
    → ((r + n) % 18446744073709551616 == (r % 18446744073709551616 + 32) % 18446744073709551616)
      ≡ (n == 32)
all_taken r n h = ground arith

none_left :
    (r n : ℕ) → n ≤ 32 → ((r + n) % 18446744073709551616 == r % 18446744073709551616) ≡ (n == 0)
none_left r n h = ground arith

other_slot :
    (r n i : ℕ) → n < 32 → i < n → ((r + i) % 32 == (r + n) % 18446744073709551616 % 32) ≡ false
other_slot r n i h l = ground arith

this_slot : (r n : ℕ) → ((r + n) % 32 == (r + n) % 18446744073709551616 % 32) ≡ true
this_slot r n = ground arith

first_slot : (r : ℕ) → r % uint64_mod % uart_tx_buf_size ≡ (r + 0) % uart_tx_buf_size
first_slot r = omega arith

after_first : (r i : ℕ) → r + 1 + i ≡ r + suc i
after_first r i = omega arith

plus_zero : (n : ℕ) → n ≡ n + 0
plus_zero n = omega arith

next_count :
    (r n n' : ℕ) → n' ≡ n + 1 → ((r + n) % uint64_mod + 1) % uint64_mod ≡ (r + n') % uint64_mod
next_count r n n' e = omega (arith, e)

-- One more character in the ring
stored-bytes :
    (d : ℕ → ℕ) (r : ℕ) (q : List ℕ) (c : ℕ)
    → ((i : ℕ) → i < length q → d ((r + i) % uart_tx_buf_size) ≡ get_or q i 0)
    → length q < uart_tx_buf_size
    → (i : ℕ) → i < length (q ++ c ∷ [])
    → (if (r + i) % uart_tx_buf_size == (r + length q) % uint64_mod % uart_tx_buf_size
        then c
        else d ((r + i) % uart_tx_buf_size))
      ≡ get_or (q ++ c ∷ []) i 0
stored-bytes d r q c old below i h = elim (Bool-cases (i == length q)) [
  | inl last ↦ rw ((==_iff i (length q)).0 last, this_slot r (length q)) (sym (get_or-last q c 0))
  | inr sooner ↦
      let inside : i < length q = ground (arith, sooner, h, length-append q (c ∷ [])) in
      rw (other_slot r (length q) i below inside) (old i inside ∙ sym (get_or-front q c 0 i inside))
]

-- One character fewer
sent-IsRing :
    (u : Uart) (r x : ℕ) (q : List ℕ)
    → IsRing u r (x ∷ q)
    → IsRing (record u { tx_r = (u.tx_r + 1) % uint64_mod }) (r + 1) q
sent-IsRing u r x q is = record {
  read_count = omega (arith, is.read_count);
  write_count = is.write_count ∙ ap (λ n. n % uint64_mod) (sym (after_first r (length q)));
  fits = omega (arith, is.fits);
  bytes = λ i h.
      ap u.tx_buf (ap (λ n. n % uart_tx_buf_size) (after_first r i))
      ∙ is.bytes (suc i) (omega (arith, h));
}

module _ {D : Type 0} (regs : Registers D) where
  -- The device after the characters were written to it, each after a read of LSR
  abbrev pub send_all : List ℕ → D → D
  send_all [] d = d
  send_all (c ∷ cs) d = send_all cs (regs.write_thr c (regs.read_lsr d).1)

  -- The device is idle at each of these reads.
  abbrev pub IdleFor : List ℕ → D → Type 0
  IdleFor [] d = Unit
  IdleFor (c ∷ cs) d =
      (bit_and (regs.read_lsr d).0 lsr_tx_idle ≢ 0)
      × IdleFor cs (regs.write_thr c (regs.read_lsr d).1)

  -- Some characters at the front are sent: all, or up to one that the device is not ready for.
  pub record Sends (q : List ℕ) (r : ℕ) (d : D) (n : ℕ) (s : Started D) : Type 0 where
    pub sent : List ℕ
    pub kept : List ℕ
    pub order : q ≡ sent ++ kept
    pub ring : IsRing s.uart (r + length sent) kept
    pub woken : s.wakeups ≡ n + length sent
    pub idle : IdleFor sent d
    pub ends :
        ((kept ≡ []) × (s.device ≡ regs.read_isr (send_all sent d)))
        ⊎ ((kept ≢ [])
            × (bit_and (regs.read_lsr (send_all sent d)).0 lsr_tx_idle ≡ 0)
            × (s.device ≡ (regs.read_lsr (send_all sent d)).1))

  abbrev SendsAll : List ℕ → ℕ → D → ℕ → Option (Started D) → Type 0
  SendsAll q r d n result = (s : Started D) × (result ≡ some s) × Sends q r d n s

  uartstart_loop-Sends :
      (k : ℕ) (q : List ℕ) (u : Uart) (r : ℕ) (d : D) (n : ℕ)
      → IsRing u r q
      → length q < k
      → SendsAll q r d n (uartstart_loop regs k u d n)
  unfolding uartstart_loop
  uartstart_loop-Sends zero q u r d n is h = absurd (omega (arith, h))
  uartstart_loop-Sends (suc k) [] u r d n is h =
      let over : (u.tx_w == u.tx_r) ≡ true =
        ground (arith, is.write_count, is.read_count, none_left r 0 (omega arith)) in
      rw over (
        _,
        refl,
        record {
          sent = [];
          kept = [];
          order = refl;
          ring = subst (λ i. IsRing u i []) (plus_zero r) is;
          woken = plus_zero n;
          idle = tt;
          ends = inl (refl, refl);
        },
      )
  uartstart_loop-Sends (suc k) (x ∷ q) u r d n is h =
      let more : (u.tx_w == u.tx_r) ≡ false =
        ground (arith, is.write_count, is.read_count, none_left r (suc (length q)) is.fits) in
      let first : u.tx_buf (u.tx_r % uart_tx_buf_size) ≡ x =
        ap (λ i. u.tx_buf (i % uart_tx_buf_size)) is.read_count
        ∙ ap u.tx_buf (first_slot r)
        ∙ is.bytes 0 (omega arith) in
      elim (Bool-cases (bit_and (regs.read_lsr d).0 lsr_tx_idle == 0)) [
        | inl e ↦
            rw (more, e)
              (
                _,
                refl,
                record {
                  sent = [];
                  kept = x ∷ q;
                  order = refl;
                  ring = subst (λ i. IsRing u i (x ∷ q)) (plus_zero r) is;
                  woken = plus_zero n;
                  idle = tt;
                  ends = inr ((λ z. absurd (omega (arith, ap length z))), (==_iff _ 0).0 e, refl);
                },
              )
        | inr e ↦
            let (s, f, g) =
              uartstart_loop-Sends k q (record u { tx_r = (u.tx_r + 1) % uint64_mod }) (r + 1)
                (regs.write_thr x (regs.read_lsr d).1) (n + 1) (sent-IsRing u r x q is)
                (omega (arith, h)) in
            rw (more, e, first)
              (
                s,
                f,
                record {
                  idle = ((λ z. differ e ((==_iff _ 0).1 z)), g.idle);
                  sent = x ∷ g.sent;
                  kept = g.kept;
                  order = ap (λ cs. x ∷ cs) g.order;
                  ring = subst (λ i. IsRing s.uart i g.kept) (after_first r (length g.sent)) g.ring;
                  woken = g.woken ∙ after_first n (length g.sent);
                  ends = g.ends;
                },
              )
      ]

  -- What a round of `uartputc` ends in, if `q` is in the ring.
  abbrev pub Puts : List ℕ → ℕ → D → ℕ → PutRound D → Type 0
  Puts q r d c spins = ⊥
  Puts q r d c sleeps = length q ≡ uart_tx_buf_size
  Puts q r d c (puts result) = (length q < uart_tx_buf_size) × SendsAll (q ++ c ∷ []) r d 0 result

  -- A round of `uartputc` without a panic of the kernel sleeps exactly if 32 characters are in the ring, and else puts the
  -- character behind them. Characters are then written to THR from the front, each after a read of LSR that shows the
  -- device idle, until the ring is empty, and ISR is read, or such a read shows it not idle; each character that is
  -- written is one wakeup. The counters may wrap around.
  pub uartputc_round-Puts :
      (q : List ℕ) (u : Uart) (r : ℕ) (d : D) (c : ℕ)
      → IsRing u r q
      → Puts q r d c (uartputc_round regs u d false c)
  unfolding uartputc_round uartstart
  uartputc_round-Puts q u r d c is =
      let test : (u.tx_w == (u.tx_r + uart_tx_buf_size) % uint64_mod) ≡ (length q == 32) =
        ground (arith, is.write_count, is.read_count, all_taken r (length q) is.fits) in
      elim (Bool-cases (length q == 32)) [
        | inl e ↦ rw (test, e) ((==_iff (length q) 32).0 e)
        | inr e ↦
            let below : length q < 32 = ground (arith, e, is.fits) in
            rw (test, e)
              (
                below,
                uartstart_loop-Sends 33 (q ++ c ∷ []) _ r d 0 (put_ring below)
                    (omega (arith, below, length-append q (c ∷ []))),
              )
      ]
    where
      put_ring :
          length q < 32
          → IsRing
              (record {
                tx_buf = λ j. if j == u.tx_w % uart_tx_buf_size then c else u.tx_buf j;
                tx_w = (u.tx_w + 1) % uint64_mod;
                tx_r = u.tx_r;
              })
              r
              (q ++ c ∷ [])
      put_ring below = record {
        read_count = is.read_count;
        write_count =
            ap (λ w. (w + 1) % uint64_mod) is.write_count
            ∙ next_count r (length q) _ (omega (arith, length-append q (c ∷ [])));
        fits = omega (arith, below, length-append q (c ∷ []));
        bytes = λ i h.
            ap
              (λ w.
                if (r + i) % uart_tx_buf_size == w % uart_tx_buf_size
                then c
                else u.tx_buf ((r + i) % uart_tx_buf_size))
              is.write_count
            ∙ stored-bytes u.tx_buf r q c is.bytes below i h;
      }

  -- `uartstart` on a ring sends characters from its front in order, until it is empty or the device is not idle, and ends.
  pub uartstart-Sends :
      (q : List ℕ) (u : Uart) (r : ℕ) (d : D) → IsRing u r q → SendsAll q r d 0 (uartstart regs u d)
  unfolding uartstart
  uartstart-Sends q u r d is = uartstart_loop-Sends 33 q u r d 0 is (omega (arith, is.fits))
