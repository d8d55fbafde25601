-- ===== src/Console/Reading.antt =====
-- A round of `consoleread` in kernel/console.c on the queue of the lines that are ready.
use mathlib.Core.Path.{subst}
use csci5103_lab.Common.{
  ℕ, ◌+◌, ◌%◌, ◌^◌, ◌≡◌, refl, ap, ◌∙◌, arith, Bool, true, false, not, ◌&&◌, List, [], ◌∷◌, ◌==◌,
  if◌then◌else◌, Bool-cases, inl, inr,
}
use csci5103_lab.Console.{
  input_buf_size, add32, newline, end_of_file, Console, ReadRound, read_error, read_sleep, read_end,
  read_char, read_fault, consoleread_round,
}
use csci5103_lab.Console.Input.{Holds, IsInput}

-- Without a ready character the round waits. An end of file stays for the next read if this one has
-- characters already.
abbrev pub Reads : ℕ → List ℕ → List ℕ → Bool → Bool → Bool → ReadRound → Type 0
Reads n [] line killed started copied r = r ≡ (if killed then read_error else read_sleep)
Reads n (x ∷ xs) line killed started copied r =
    let stays = x == end_of_file && started in
    let out = λ (c : Console). if not copied then read_fault c else read_char x (x == newline) c in
    (c : Console) × (r ≡ (if x == end_of_file then read_end c else out c))
    × IsInput c (if stays then n else n + 1) (if stays then x ∷ xs else xs) line

abbrev taken : Console → Console
taken c = record c { r = add32 c.r 1 }

one_more : (b : ℕ) → add32 (b % 2 ^ 32) 1 ≡ (b + 1) % 2 ^ 32
one_more b = omega arith

taken-IsInput :
    (c : Console) (n x : ℕ) (xs line : List ℕ)
    → IsInput c n (x ∷ xs) line
    → IsInput (taken c) (n + 1) xs line
taken-IsInput c n x xs line is = record {
  read_count = ap (λ r. add32 r 1) is.read_count ∙ one_more n;
  ready_count = is.ready_count ∙ ap (λ k. k % 2 ^ 32) (omega arith);
  edit_count = is.edit_count ∙ ap (λ k. k % 2 ^ 32) (omega arith);
  fits = omega (arith, is.fits);
  ready_chars = is.ready_chars.1;
  line_chars = subst (λ b. Holds c.buf b line) (omega arith) is.line_chars;
  no_newline = is.no_newline;
}

slot : (b : ℕ) → b % 2 ^ 32 % 128 ≡ b % 128
slot b = omega arith

nothing_ready : (c : Console) (n : ℕ) (line : List ℕ) → IsInput c n [] line → (c.r == c.w) ≡ true
nothing_ready c n line is = ground (arith, is.read_count, is.ready_count)

some_ready :
    (c : Console) (n x : ℕ) (xs line : List ℕ) → IsInput c n (x ∷ xs) line → (c.r == c.w) ≡ false
some_ready c n x xs line is = ground (arith, is.read_count, is.ready_count, is.fits)

next_char :
    (c : Console) (n x : ℕ) (xs line : List ℕ)
    → IsInput c n (x ∷ xs) line
    → c.buf (c.r % input_buf_size) ≡ x
next_char c n x xs line is =
    ap (λ i. c.buf (i % 128)) is.read_count ∙ ap c.buf (slot n) ∙ is.ready_chars.0

-- Where the buffer holds the characters of `ready` and of `line`, a round of the loop in `consoleread`
-- fails or sleeps if none is ready. Else it takes the first: ^D ends the read, and it stays in the
-- buffer if the read has characters already; another is lost where `either_copyout` fails; a newline is the last character of the read.
pub consoleread_round-Reads :
    (c : Console) (n : ℕ) (ready line : List ℕ) (killed started copied : Bool)
    → IsInput c n ready line
    → Reads n ready line killed started copied (consoleread_round c killed started copied)
unfolding consoleread_round
consoleread_round-Reads c n [] line killed started copied is = rw (nothing_ready c n line is) refl
consoleread_round-Reads c n (x ∷ xs) line killed started copied is =
    rw (some_ready c n x xs line is, next_char c n x xs line is)
      (elim (Bool-cases (x == end_of_file)) [
        | inl e ↦ elim (Bool-cases started) [
          | inl f ↦ rw (e, f) (c, refl, is)
          | inr f ↦ rw (e, f) (taken c, refl, taken-IsInput c n x xs line is)
        ]
        | inr e ↦ rw e (taken c, refl, taken-IsInput c n x xs line is)
      ])
