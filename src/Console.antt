-- ===== src/Console.antt =====
-- kernel/console.c: the input buffer between the interrupt handler and the readers. `cons.lock` makes
-- the handler, and a round of the reader's loop, one step. What the handler echoes and what it
-- prints is a list of actions.
pub mod Input
pub mod Interrupt
pub mod Reading
mod Tests
use csci5103_lab.Common.{
  ℕ, zero, suc, ◌+◌, ◌-◌, ◌%◌, ◌^◌, Bool, true, false, not, ◌&&◌, ◌||◌, List, [], ◌∷◌, ◌++◌, ltb,
  ◌==◌, if◌then◌else◌,
}

abbrev pub input_buf_size : ℕ
input_buf_size = 128

-- `uint` arithmetic
abbrev pub add32 : ℕ → ℕ → ℕ
add32 a b = (a + b) % 2 ^ 32

abbrev pub sub32 : ℕ → ℕ → ℕ
sub32 a b = (a + 2 ^ 32 - b) % 2 ^ 32

-- `C(x)`
abbrev pub ctrl : ℕ → ℕ
ctrl x = x - 64

abbrev pub newline : ℕ
newline = 10

abbrev pub carriage_return : ℕ
carriage_return = 13

abbrev pub end_of_file : ℕ
end_of_file = ctrl 68

abbrev pub backspace : ℕ
backspace = 0x100

pub record Console : Type 0 where
  pub buf : ℕ → ℕ
  pub r : ℕ
  pub w : ℕ
  pub e : ℕ

-- What the handler calls besides: `procdump`, `consputc` and `wakeup(&cons.r)`.
pub data Action : Type 0 where
  procdump wakeup_readers : Action
  consputc : ℕ → Action

-- The loop of `consoleintr` on ^U, and what it echoes; at most as many rounds as `e - w`.
unfoldable pub kill_line : ℕ → Console → Console × List Action
kill_line zero c = (c, [])
kill_line (suc k) c =
    let rest = kill_line k (record c { e = sub32 c.e 1 }) in
    if not (c.e == c.w) && not (c.buf (sub32 c.e 1 % input_buf_size) == newline)
    then (rest.0, consputc backspace ∷ rest.1)
    else (c, [])

unfoldable pub erase : Console → Console × List Action
erase c =
    if not (c.e == c.w) then (record c { e = sub32 c.e 1 }, consputc backspace ∷ []) else (c, [])

-- Stores the character and commits the line where it ends.
unfoldable pub store : ℕ → Console → Console × List Action
store ch c =
    let c' = record c {
      buf = λ j. if j == c.e % input_buf_size then ch else c.buf j;
      e = add32 c.e 1;
    } in
    if ch == newline || ch == end_of_file || sub32 c'.e c'.r == input_buf_size
    then (record c' { w = c'.e }, consputc ch ∷ wakeup_readers ∷ [])
    else (c', consputc ch ∷ [])

unfoldable pub consoleintr : ℕ → Console → Console × List Action
consoleintr ch c =
    if ch == ctrl 80
    then (c, procdump ∷ [])
    else if ch == ctrl 85
    then kill_line (sub32 c.e c.w) c
    else if ch == ctrl 72 || ch == 0x7f
    then erase c
    else if not (ch == 0) && ltb (sub32 c.e c.r) input_buf_size
    then store (if ch == carriage_return then newline else ch) c
    else (c, [])

-- A round of the loop of `consoleread`: it waits, stops at an end of file or where `either_copyout`
-- fails, or hands out a character, which is the last of the read if it ends a line. `started` is
-- `n < target`.
pub data ReadRound : Type 0 where
  read_error read_sleep : ReadRound
  read_end read_fault : Console → ReadRound
  read_char : ℕ → Bool → Console → ReadRound

unfoldable pub consoleread_round : Console → Bool → Bool → Bool → ReadRound
consoleread_round c killed started copied =
    if c.r == c.w
    then if killed then read_error else read_sleep
    else let ch = c.buf (c.r % input_buf_size) in
      let c' = record c { r = add32 c.r 1 } in
      if ch == end_of_file
      then read_end (if started then c else c')
      else if not copied
      then read_fault c'
      else read_char ch (ch == newline) c'
