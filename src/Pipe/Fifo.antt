-- ===== src/Pipe/Fifo.antt =====
-- A pipe of kernel/pipe.c is a first-in first-out queue of at most 512 bytes, also where its counters
-- wrap around.
use csci5103_lab.Common.{
  sym, ap, ==_iff, ℕ, suc, ◌+◌, ◌%◌, ◌≤◌, ◌<◌, ◌≡◌, inl, inr, refl, ◌∙◌, arith, true, false, List,
  [], ◌∷◌, ◌++◌, Option, none, some, length, length-append, get_or, get_or-last, get_or-front, ◌==◌,
  if◌then◌else◌, Bool-cases,
}
use csci5103_lab.Pipe.{
  pipesize, uint_mod, Pipe, pipe_init, nread_channel, nwrite_channel, WriteRound, write_error,
  write_sleep, write_break, wrote, pipewrite_round, piperead_round,
}

-- The ring holds `q`, and `r` bytes were read so far.
pub record IsQueue (pi : Pipe) (r : ℕ) (q : List ℕ) : Type 0 where
  pub read_count : pi.nread ≡ r % uint_mod
  pub write_count : pi.nwrite ≡ (r + length q) % uint_mod
  pub fits : length q ≤ pipesize
  pub bytes : (i : ℕ) → i < length q → pi.data_at ((r + i) % pipesize) ≡ get_or q i 0

-- A new pipe is empty.
pipe_init-IsQueue : (page : ℕ → ℕ) → IsQueue (pipe_init page) 0 []
unfolding pipe_init
pipe_init-IsQueue page = record {
  read_count = refl;
  write_count = refl;
  fits = omega arith;
  bytes = λ i h. absurd (omega arith);
}

-- The counters differ by the length of the queue.
is_full :
    (r n : ℕ) → n ≤ 512 → ((r + n) % 4294967296 == (r % 4294967296 + 512) % 4294967296) ≡ (n == 512)
is_full r n h = ground arith

is_empty : (r n : ℕ) → n ≤ 512 → (r % 4294967296 == (r + n) % 4294967296) ≡ (n == 0)
is_empty r n h = ground arith

other_slot : (r n i : ℕ) → n < 512 → i < n → ((r + i) % 512 == (r + n) % 4294967296 % 512) ≡ false
other_slot r n i h l = ground arith

this_slot : (r n : ℕ) → ((r + n) % 512 == (r + n) % 4294967296 % 512) ≡ true
this_slot r n = ground arith

wraps : (r n n' : ℕ) → n' ≡ n + 1 → ((r + n) % uint_mod + 1) % uint_mod ≡ (r + n') % uint_mod
wraps r n n' e = omega (arith, e)

wraps_one : (r : ℕ) → (r % uint_mod + 1) % uint_mod ≡ (r + 1) % uint_mod
wraps_one r = omega arith

first_slot : (r : ℕ) → (r + 0) % pipesize ≡ r % uint_mod % pipesize
first_slot r = omega arith

shift : (r n : ℕ) → r + suc n ≡ r + 1 + n
shift r n = omega arith

shift_back : (r n : ℕ) → r + 1 + n ≡ r + suc n
shift_back r n = omega arith

-- The bytes after one more is written.
pushed-bytes :
    (d : ℕ → ℕ) (r : ℕ) (q : List ℕ) (c : ℕ)
    → ((i : ℕ) → i < length q → d ((r + i) % pipesize) ≡ get_or q i 0)
    → length q < pipesize
    → (i : ℕ) → i < length (q ++ c ∷ [])
    → (if (r + i) % pipesize == (r + length q) % uint_mod % pipesize
        then c
        else d ((r + i) % pipesize))
      ≡ get_or (q ++ c ∷ []) i 0
pushed-bytes d r q c old below i h = elim (Bool-cases (i == length q)) [
  | inl last ↦ rw ((==_iff i (length q)).0 last, this_slot r (length q)) (sym (get_or-last q c 0))
  | inr sooner ↦
      let inside : i < length q = ground (arith, sooner, h, length-append q (c ∷ [])) in
      rw (other_slot r (length q) i below inside) (old i inside ∙ sym (get_or-front q c 0 i inside))
]

-- What a round of a writer with byte `c` ends in, if `q` is in the pipe.
abbrev pub Accepts : ℕ → List ℕ → ℕ → WriteRound → Type 0
Accepts r q c write_error = ⊥
Accepts r q c (write_sleep woken channel) =
    (woken ≡ nread_channel) × (channel ≡ nwrite_channel) × (length q ≡ pipesize)
Accepts r q c write_break = ⊥
Accepts r q c (wrote pi) = (length q < pipesize) × IsQueue pi r (q ++ c ∷ [])

-- A round of a writer with a byte, while the reading end is open and the process is not killed, wakes the
-- readers and sleeps on the channel of the writers if 512 bytes are in the pipe, and else puts the byte behind them;
-- the counters may wrap around.
pub pipewrite_round-Accepts :
    (pi : Pipe) (r : ℕ) (q : List ℕ) (c : ℕ)
    → IsQueue pi r q
    → pi.readopen ≡ true
    → Accepts r q c (pipewrite_round pi false (some c))
unfolding pipewrite_round
pipewrite_round-Accepts pi r q c is opened =
    let full_test = is_full r (length q) is.fits in
    elim (Bool-cases (length q == 512)) [
      | inl full ↦
          rw (opened, is.write_count, is.read_count, full_test, full)
            (refl, refl, (==_iff (length q) 512).0 full)
      | inr room ↦
          let below : length q < 512 = ground (arith, room, is.fits) in
          rw (opened, is.write_count, is.read_count, full_test, room)
            (
              below,
              record {
                read_count = refl;
                write_count = wraps r (length q) _ (omega (arith, length-append q (c ∷ [])));
                fits = omega (arith, below, length-append q (c ∷ []));
                bytes = pushed-bytes pi.data_at r q c is.bytes below;
              },
            )
    ]

-- What a round of a reader ends in.
abbrev pub Gives : ℕ → List ℕ → Option (ℕ × Pipe) → Type 0
Gives r q none = q ≡ []
Gives r q (some (c, pi)) = (xs : List ℕ) × (q ≡ c ∷ xs) × IsQueue pi (r + 1) xs

-- A round of a reader takes the first byte in the pipe, if there is one; the counters may wrap around.
pub piperead_round-Gives :
    (pi : Pipe) (r : ℕ) (q : List ℕ) → IsQueue pi r q → Gives r q (piperead_round pi)
unfolding piperead_round
piperead_round-Gives pi r [] is =
    rw (is.read_count, is.write_count, is_empty r 0 (omega arith)) refl
piperead_round-Gives pi r (x ∷ xs) is =
    let some_left : (suc (length xs) == 0) ≡ false = ground arith in
    rw (is.read_count, is.write_count, is_empty r (suc (length xs)) is.fits, some_left)
      (
        xs,
        ap (λ b. b ∷ xs) (sym (is.bytes 0 (omega arith)) ∙ ap pi.data_at (first_slot r)),
        record {
          read_count = wraps_one r;
          write_count = ap (λ n. n % uint_mod) (shift r (length xs));
          fits = omega (arith, is.fits);
          bytes = λ i h.
              ap pi.data_at (ap (λ n. n % pipesize) (shift_back r i))
              ∙ is.bytes (suc i) (omega (arith, h));
        },
      )
