-- ===== src/Console/Input.antt =====
-- The buffer of kernel/console.c as two queues of characters: the lines that are ready for readers, and
-- the line that is being edited.
use mathlib.Core.Path.{subst}
use csci5103_lab.Common.{
  ==_false, ℕ, zero, suc, ◌+◌, ◌%◌, ◌^◌, ◌≤◌, ◌<◌, ◌≡◌, ◌≢◌, refl, sym, ap, ◌∙◌, arith, false, List,
  [], ◌∷◌, ◌++◌, All, length, ◌==◌, if◌then◌else◌,
}
use csci5103_lab.Console.{input_buf_size, sub32, newline, Console, kill_line, erase}

-- The characters between two counters, `n` of them from `b` on.
abbrev pub Holds : (ℕ → ℕ) → ℕ → List ℕ → Type 0
Holds buf b [] = Unit
Holds buf b (x ∷ xs) = (buf (b % input_buf_size) ≡ x) × Holds buf (b + 1) xs

-- `n` characters were read; `ready` can be read, and `line` is being edited.
pub record IsInput (c : Console) (n : ℕ) (ready line : List ℕ) : Type 0 where
  pub read_count : c.r ≡ n % 2 ^ 32
  pub ready_count : c.w ≡ (n + length ready) % 2 ^ 32
  pub edit_count : c.e ≡ (n + length ready + length line) % 2 ^ 32
  pub fits : length ready + length line ≤ input_buf_size
  pub ready_chars : Holds c.buf n ready
  pub line_chars : Holds c.buf (n + length ready) line
  pub no_newline : All (λ x. x ≢ newline) line

-- All but the last.
abbrev pub drop_last : List ℕ → List ℕ
drop_last [] = []
drop_last (x ∷ []) = []
drop_last (x ∷ y ∷ ys) = x ∷ drop_last (y ∷ ys)

length-drop_last : (x : ℕ) (xs : List ℕ) → length (drop_last (x ∷ xs)) ≡ length xs
length-drop_last x [] = refl
length-drop_last x (y ∷ ys) = ap suc (length-drop_last y ys)

Holds-drop_last : (buf : ℕ → ℕ) (b : ℕ) (xs : List ℕ) → Holds buf b xs → Holds buf b (drop_last xs)
Holds-drop_last buf b [] h = tt
Holds-drop_last buf b (x ∷ []) h = tt
Holds-drop_last buf b (x ∷ y ∷ ys) (e, h) = (e, Holds-drop_last buf (b + 1) (y ∷ ys) h)

All-drop_last : (P : ℕ → Type 0) (xs : List ℕ) → All P xs → All P (drop_last xs)
All-drop_last P [] h = tt
All-drop_last P (x ∷ []) h = tt
All-drop_last P (x ∷ y ∷ ys) (e, h) = (e, All-drop_last P (y ∷ ys) h)

-- The counters `e` and `w` are equal exactly if no line is being edited.
same_count : (b k : ℕ) → k ≤ 128 → ((b + k) % 2 ^ 32 == b % 2 ^ 32) ≡ (k == 0)
same_count b k h = ground arith

one_less : (b k : ℕ) → sub32 ((b + suc k) % 2 ^ 32) 1 ≡ (b + k) % 2 ^ 32
one_less b k = omega arith

pub editing_test :
    (c : Console) (n : ℕ) (ready line : List ℕ)
    → IsInput c n ready line
    → (c.e == c.w) ≡ (length line == 0)
editing_test c n ready line is =
    rw (is.edit_count, is.ready_count)
      (same_count (n + length ready) (length line) (omega (arith, is.fits)))

shorter-IsInput :
    (c : Console) (n : ℕ) (ready : List ℕ) (x : ℕ) (xs : List ℕ)
    → IsInput c n ready (x ∷ xs)
    → IsInput (record c { e = sub32 c.e 1 }) n ready (drop_last (x ∷ xs))
shorter-IsInput c n ready x xs is = record {
  read_count = is.read_count;
  ready_count = is.ready_count;
  edit_count =
      ap (λ e. sub32 e 1) is.edit_count
      ∙ one_less (n + length ready) (length xs)
      ∙ ap (λ k. (n + length ready + k) % 2 ^ 32) (sym (length-drop_last x xs));
  fits = omega (arith, is.fits, length-drop_last x xs);
  ready_chars = is.ready_chars;
  line_chars = Holds-drop_last c.buf (n + length ready) (x ∷ xs) is.line_chars;
  no_newline = All-drop_last (λ y. y ≢ newline) (x ∷ xs) is.no_newline;
}

-- Backspace takes the last character of the line that is being edited.
pub erase-IsInput :
    (c : Console) (n : ℕ) (ready line : List ℕ)
    → IsInput c n ready line
    → IsInput (erase c).0 n ready (drop_last line)
unfolding erase
erase-IsInput c n ready [] is = rw (editing_test c n ready [] is) is
erase-IsInput c n ready (x ∷ xs) is =
    let some_left : (suc (length xs) == 0) ≡ false = ground arith in
    rw (editing_test c n ready (x ∷ xs) is, some_left) (shorter-IsInput c n ready x xs is)

-- The character before `e` is the last of the line, which is no newline.
last-no_newline :
    (buf : ℕ → ℕ) (b x : ℕ) (xs : List ℕ)
    → Holds buf b (x ∷ xs)
    → All (λ y. y ≢ newline) (x ∷ xs)
    → buf ((b + length xs) % input_buf_size) ≢ newline
last-no_newline buf b x [] (e, _) (n, _) z =
    let same : b ≡ b + 0 = omega arith in n (sym e ∙ ap (λ i. buf (i % input_buf_size)) same ∙ z)
last-no_newline buf b x (y ∷ ys) (e, h) (n, ns) z =
    let same : b + 1 + length ys ≡ b + suc (length ys) = omega arith in
    last-no_newline buf (b + 1) y ys h ns (ap (λ i. buf (i % input_buf_size)) same ∙ z)

wrapped_index : (b k : ℕ) → sub32 ((b + suc k) % 2 ^ 32) 1 % 128 ≡ (b + k) % 128
wrapped_index b k = omega arith

-- ^U takes the whole line.
pub kill_line-IsInput :
    (k : ℕ) (c : Console) (n : ℕ) (ready line : List ℕ)
    → IsInput c n ready line
    → length line ≡ k
    → IsInput (kill_line k c).0 n ready []
unfolding kill_line
kill_line-IsInput zero c n ready [] is e = is
kill_line-IsInput zero c n ready (x ∷ xs) is e = absurd (omega arith)
kill_line-IsInput (suc k) c n ready [] is e = absurd (omega arith)
kill_line-IsInput (suc k) c n ready (x ∷ xs) is e =
    let some_left : (suc (length xs) == 0) ≡ false = ground arith in
    let started : (c.e == c.w) ≡ false = editing_test c n ready (x ∷ xs) is ∙ some_left in
    let index : sub32 c.e 1 % 128 ≡ (n + length ready + length xs) % 128 =
      ap (λ i. sub32 i 1 % 128) is.edit_count ∙ wrapped_index (n + length ready) (length xs) in
    let plain = last-no_newline c.buf (n + length ready) x xs is.line_chars is.no_newline in
    let no_end : (c.buf (sub32 c.e 1 % 128) == newline) ≡ false =
      ap (λ i. c.buf i == newline) index ∙ ==_false _ newline plain in
    rw (started, no_end)
      (kill_line-IsInput k (record c { e = sub32 c.e 1 }) n ready (drop_last (x ∷ xs))
        (shorter-IsInput c n ready x xs is) (omega (arith, e, length-drop_last x xs)))

pub Holds-append :
    (buf : ℕ → ℕ) (b : ℕ) (xs ys : List ℕ)
    → Holds buf b xs
    → Holds buf (b + length xs) ys
    → Holds buf b (xs ++ ys)
Holds-append buf b [] ys h k =
    let same : b + 0 ≡ b = omega arith in subst (λ i. Holds buf i ys) same k
Holds-append buf b (x ∷ xs) ys (e, h) k =
    let same : b + suc (length xs) ≡ b + 1 + length xs = omega arith in
    (e, Holds-append buf (b + 1) xs ys h (subst (λ i. Holds buf i ys) same k))

-- The slot of a character that is not yet there is none of those in use.
abbrev pub put_char : (ℕ → ℕ) → ℕ → ℕ → (ℕ → ℕ)
put_char buf t ch = λ j. if j == t % input_buf_size then ch else buf j

other_slot : (b t : ℕ) → b < t → t < b + 128 → (b % 128 == t % 128) ≡ false
other_slot b t h k = ground arith

pub Holds-put_char :
    (buf : ℕ → ℕ) (b t ch : ℕ) (xs : List ℕ)
    → b + length xs ≤ t
    → t < b + 128
    → Holds buf b xs
    → Holds (put_char buf t ch) b xs
Holds-put_char buf b t ch [] h k is = tt
Holds-put_char buf b t ch (x ∷ xs) h k (e, is) = (
  rw (other_slot b t (omega (arith, h)) k) e,
  Holds-put_char buf (b + 1) t ch xs (omega (arith, h)) (omega (arith, k)) is,
)

pub All-append : (P : ℕ → Type 0) (xs ys : List ℕ) → All P xs → All P ys → All P (xs ++ ys)
All-append P [] ys h k = k
All-append P (x ∷ xs) ys (e, h) k = (e, All-append P xs ys h k)
