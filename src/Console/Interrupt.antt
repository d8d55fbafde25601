-- ===== src/Console/Interrupt.antt =====
-- `consoleintr` of kernel/console.c against an editor of one line that hands its lines to a queue.
use csci5103_lab.Common.{
  ltb-true_lt, ==_refl, ℕ, ◌+◌, ◌%◌, ◌^◌, ◌≤◌, ◌<◌, ◌≡◌, ◌≢◌, inl, inr, refl, sym, ap, ◌∙◌, arith,
  Bool, false, not, ◌&&◌, ◌||◌, List, [], ◌∷◌, ◌++◌, length, length-append, ltb, ◌==◌,
  if◌then◌else◌, Bool-cases,
}
use csci5103_lab.Console.{
  input_buf_size, add32, sub32, newline, end_of_file, carriage_return, ctrl, Console, kill_line,
  store, consoleintr,
}
use csci5103_lab.Console.Input.{
  Holds, Holds-append, Holds-put_char, All-append, put_char, IsInput, drop_last, erase-IsInput,
  kill_line-IsInput,
}

-- The lines that are ready, and the line that is being edited, after a character is added to it.
abbrev pub enter : ℕ → List ℕ → List ℕ → List ℕ × List ℕ
enter ch ready line =
    if ch == newline || ch == end_of_file || length ready + length line + 1 == input_buf_size
    then (ready ++ (line ++ ch ∷ []), [])
    else (ready, line ++ ch ∷ [])

-- What a typed character does.
abbrev pub typed : ℕ → List ℕ → List ℕ → List ℕ × List ℕ
typed ch ready line =
    if ch == ctrl 80
    then (ready, line)
    else if ch == ctrl 85
    then (ready, [])
    else if ch == ctrl 72 || ch == 0x7f
    then (ready, drop_last line)
    else if not (ch == 0) && ltb (length ready + length line) input_buf_size
    then enter (if ch == carriage_return then newline else ch) ready line
    else (ready, line)

distance : (n k : ℕ) → k ≤ 128 → sub32 ((n + k) % 2 ^ 32) (n % 2 ^ 32) ≡ k
distance n k h = omega arith

one_more : (b : ℕ) → add32 (b % 2 ^ 32) 1 ≡ (b + 1) % 2 ^ 32
one_more b = omega arith

slot : (b : ℕ) → b % 2 ^ 32 % 128 ≡ b % 128
slot b = omega arith

abbrev stored : ℕ → Console → Console
stored ch c = record c { buf = put_char c.buf c.e ch; e = add32 c.e 1 }

module _ (c : Console) (n ch : ℕ) (ready line : List ℕ) (is : IsInput c n ready line) where
  in_use : sub32 c.e c.r ≡ length ready + length line
  in_use =
      let at_end : c.e ≡ (n + (length ready + length line)) % 2 ^ 32 =
        omega (arith, is.edit_count) in
      rw (at_end, is.read_count) (distance n (length ready + length line) is.fits)

  slot_of_e : put_char c.buf c.e ch ≡ put_char c.buf (n + length ready + length line) ch
  slot_of_e =
      ap (λ t. λ j. if j == t then ch else c.buf j)
        (ap (λ e. e % 128) is.edit_count ∙ slot (n + length ready + length line))

  bumped : (k : ℕ) → k ≡ length line + 1 → add32 c.e 1 ≡ (n + length ready + k) % 2 ^ 32
  bumped k same =
      ap (λ e. add32 e 1) is.edit_count
      ∙ one_more (n + length ready + length line)
      ∙ ap (λ j. j % 2 ^ 32) (omega (arith, same))

  module _ (room : length ready + length line < 128) where
    stored_ready : Holds (put_char c.buf c.e ch) n ready
    stored_ready = rw slot_of_e (
        Holds-put_char c.buf n (n + length ready + length line) ch ready (omega arith)
          (omega (arith, room)) is.ready_chars)

    stored_line : Holds (put_char c.buf c.e ch) (n + length ready) (line ++ ch ∷ [])
    stored_line = rw slot_of_e (
        Holds-append (put_char c.buf (n + length ready + length line) ch) (n + length ready) line
          (ch ∷ [])
          (Holds-put_char c.buf (n + length ready) (n + length ready + length line) ch line
            (omega arith) (omega (arith, room)) is.line_chars)
          (rw (==_refl ((n + length ready + length line) % 128)) refl, tt))

    -- The character starts a line that is not ended, or ends it.
    stored_open : (ch == newline) ≡ false → IsInput (stored ch c) n ready (line ++ ch ∷ [])
    stored_open plain = record {
      read_count = is.read_count;
      ready_count = is.ready_count;
      edit_count = bumped (length (line ++ ch ∷ [])) (length-append line (ch ∷ []));
      fits = omega (arith, room, length-append line (ch ∷ []));
      ready_chars = stored_ready;
      line_chars = stored_line;
      no_newline =
          All-append (λ x. x ≢ newline) line (ch ∷ []) is.no_newline (ground (arith, plain), tt);
    }

    ends_line : IsInput (record (stored ch c) { w = add32 c.e 1 }) n (ready ++ (line ++ ch ∷ [])) []
    ends_line = record {
      read_count = is.read_count;
      ready_count = omega (
        arith,
        bumped (length line + 1) refl,
        length-append ready (line ++ ch ∷ []),
        length-append line (ch ∷ []),
      );
      edit_count = omega (
        arith,
        bumped (length line + 1) refl,
        length-append ready (line ++ ch ∷ []),
        length-append line (ch ∷ []),
      );
      fits =
          omega (arith, room, length-append ready (line ++ ch ∷ []), length-append line (ch ∷ []));
      ready_chars =
          Holds-append (put_char c.buf c.e ch) n ready (line ++ ch ∷ []) stored_ready stored_line;
      line_chars = tt;
      no_newline = tt;
    }

    full_test : (sub32 (add32 c.e 1) c.r == 128) ≡ (length ready + length line + 1 == 128)
    full_test =
        let at_end : add32 c.e 1 ≡ (n + (length ready + length line + 1)) % 2 ^ 32 =
          bumped (length line + 1) refl ∙ ap (λ k. k % 2 ^ 32) (omega arith) in
        rw (at_end, is.read_count)
          (ap (λ k. k == 128) (distance n (length ready + length line + 1) (omega (arith, room))))

    store-IsInput : IsInput (store ch c).0 n (enter ch ready line).0 (enter ch ready line).1
    unfolding store
    store-IsInput = rw full_test (elim (Bool-cases (ch == newline)) [
      | inl e ↦ rw e ends_line
      | inr e ↦ elim (Bool-cases (ch == end_of_file || length ready + length line + 1 == 128)) [
        | inl f ↦ rw (e, f) ends_line
        | inr f ↦ rw (e, f) (stored_open e)
      ]
    ])

-- A character that is not an editing key.
store-typed :
    (ch ch' : ℕ) (c : Console) (n : ℕ) (ready line : List ℕ)
    → (is : IsInput c n ready line)
    → let has_room : Bool = not (ch == 0) && ltb (length ready + length line) input_buf_size in
      let after = if has_room then enter ch' ready line else (ready, line) in
      IsInput
        (if not (ch == 0) && ltb (sub32 c.e c.r) input_buf_size then store ch' c else (c, [])).0
        n
        after.0
        after.1
store-typed ch ch' c n ready line is =
    rw (in_use c n ch' ready line is) (elim (Bool-cases (ch == 0)) [
      | inl z ↦ rw z is
      | inr z ↦ elim (Bool-cases (ltb (length ready + length line) 128)) [
        | inl h ↦ rw (z, h) (store-IsInput c n ch' ready line is (ltb-true_lt _ _ h))
        | inr h ↦ rw (z, h) is
      ]
    ])

kill_line-typed :
    (c : Console) (n : ℕ) (ready line : List ℕ)
    → IsInput c n ready line
    → IsInput (kill_line (sub32 c.e c.w) c).0 n ready []
kill_line-typed c n ready line is =
    let enough : length line ≡ sub32 c.e c.w = sym (
      ap (λ e. sub32 e c.w) is.edit_count
      ∙ ap (sub32 ((n + length ready + length line) % 2 ^ 32)) is.ready_count
      ∙ distance (n + length ready) (length line) (omega (arith, is.fits))) in
    kill_line-IsInput (sub32 c.e c.w) c n ready line is enough

-- After `consoleintr(ch)`, the buffer holds what the line editor holds: ^P changes nothing, ^U takes the
-- line, ^H and delete its last character, and a character other than 0 joins the line unless 128
-- characters wait, with a newline for a carriage return. A newline, ^D or the 128th character hands the line to the
-- readers.
pub consoleintr-IsInput :
    (ch : ℕ) (c : Console) (n : ℕ) (ready line : List ℕ)
    → IsInput c n ready line
    → IsInput (consoleintr ch c).0 n (typed ch ready line).0 (typed ch ready line).1
unfolding consoleintr
consoleintr-IsInput ch c n ready line is = elim (Bool-cases (ch == ctrl 80)) [
  | inl p ↦ rw p is
  | inr p ↦ rw p (elim (Bool-cases (ch == ctrl 85)) [
    | inl u ↦ rw u (kill_line-typed c n ready line is)
    | inr u ↦ rw u (elim (Bool-cases (ch == ctrl 72 || ch == 0x7f)) [
      | inl h ↦ rw h (erase-IsInput c n ready line is)
      | inr h ↦
          rw h (store-typed ch (if ch == carriage_return then newline else ch) c n ready line is)
    ])
  ])
]
