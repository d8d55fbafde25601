-- ===== src/Log/Reserved.antt =====
-- The steps of the operations of kernel/log.c, and the room that each operation may still take in the log.
use csci5103_lab.Common.{
  ltb-false_le, ==_iff, ℕ, zero, suc, ◌+◌, ◌-◌, ◌*◌, ◌<◌, ◌≤◌, ◌≡◌, refl, arith, Bool, true, false,
  List, [], ◌∷◌, All, length, get_or, set, sym, ◌∙◌, ◌||◌, Bool-cases, ltb, leb, ◌==◌, length-set,
  ap, inl, inr,
}
use csci5103_lab.Log.Ops.{
  maxopblocks, logsize, Log, Result, ok, sleep, negative, panic, begin_op, end_op, end_commit,
  absorb, log_write,
}

abbrev pub sum : List ℕ → ℕ
sum [] = 0
sum (x ∷ xs) = x + sum xs

abbrev pub remove : ℕ → List ℕ → List ℕ
remove k [] = []
remove zero (x ∷ xs) = xs
remove (suc k) (x ∷ xs) = x ∷ remove k xs

-- The log and, for each operation between its `begin_op` and its `end_op`, its calls of `log_write`.
pub data Step : Log → List ℕ → Log → List ℕ → Type 0 where
  begins : {l l' : Log} {used : List ℕ} → begin_op l ≡ ok tt l' → Step l used l' (0 ∷ used)
  writes :
      {l l' : Log} {used : List ℕ} {pinned : Bool} (k b : ℕ)
      → k < length used
      → get_or used k 0 < maxopblocks
      → log_write b l ≡ ok pinned l'
      → Step l used l' (set used k (suc (get_or used k 0)))
  ends :
      {l l' : Log} {used : List ℕ} {do_commit : Bool} (k : ℕ)
      → k < length used
      → end_op l ≡ ok do_commit l'
      → Step l used l' (remove k used)
  commits : {l : Log} {used : List ℕ} → l.committing ≡ true → Step l used (end_commit l) used

pub data Reach (l0 : Log) : Log → List ℕ → Type 0 where
  start : Reach l0 l0 []
  next :
      {l l' : Log} {used used' : List ℕ}
      → Reach l0 l used
      → Step l used l' used'
      → Reach l0 l' used'

-- Each operation has room for what it may still write.
pub record IsReserved (size : ℕ) (l : Log) (used : List ℕ) : Type 0 where
  pub sized : l.size ≡ size
  pub counted : l.outstanding ≡ length used
  pub bounded : All (λ u. u ≤ maxopblocks) used
  pub room : length l.lh + length used * maxopblocks ≤ logsize + sum used
  pub quiet : l.committing ≡ true → length used ≡ 0

pub sum-bound :
    (used : List ℕ) → All (λ u. u ≤ maxopblocks) used → sum used ≤ length used * maxopblocks
sum-bound [] is = omega arith
sum-bound (u ∷ us) (b, is) = omega (arith, b, sum-bound us is)

pub sum-set :
    (used : List ℕ) (k : ℕ)
    → k < length used
    → sum (set used k (suc (get_or used k 0))) ≡ suc (sum used)
sum-set [] k h = absurd (omega arith)
sum-set (u ∷ us) zero h = omega arith
sum-set (u ∷ us) (suc k) h = omega (arith, sum-set us k (omega arith))

pub All-set :
    (used : List ℕ) (k v : ℕ)
    → v ≤ maxopblocks
    → All (λ u. u ≤ maxopblocks) used
    → All (λ u. u ≤ maxopblocks) (set used k v)
All-set [] k v h is = tt
All-set (u ∷ us) zero v h (b, is) = (h, is)
All-set (u ∷ us) (suc k) v h (b, is) = (b, All-set us k v h is)

pub All-remove :
    (used : List ℕ) (k : ℕ)
    → All (λ u. u ≤ maxopblocks) used
    → All (λ u. u ≤ maxopblocks) (remove k used)
All-remove [] k is = tt
All-remove (u ∷ us) zero (b, is) = is
All-remove (u ∷ us) (suc k) (b, is) = (b, All-remove us k is)

-- An operation that leaves takes at most `MAXOPBLOCKS` with it.
pub sum-remove :
    (used : List ℕ) (k : ℕ)
    → k < length used
    → All (λ u. u ≤ maxopblocks) used
    → (length used ≡ suc (length (remove k used))) × (sum used ≤ maxopblocks + sum (remove k used))
sum-remove [] k h is = absurd (omega arith)
sum-remove (u ∷ us) zero h (b, is) = (refl, omega (arith, b))
sum-remove (u ∷ us) (suc k) h (b, is) =
    let (l, s) = sum-remove us k (omega arith) is in (ap suc l, omega (arith, s))

absorb-length : (b : ℕ) (xs : List ℕ) → length (absorb b xs) ≤ suc (length xs)
unfolding absorb
absorb-length b [] = omega arith
absorb-length b (x ∷ xs) = ground (arith, absorb-length b xs)

-- What a call ends in if it neither sleeps nor panics.
abbrev pub Allows : {A : Type 0} → (A → Log → Type 0) → Result A → Type 0
Allows Q (ok a l) = Q a l
Allows Q sleep = Unit
Allows Q negative = Unit
Allows Q (panic p) = Unit

pub Allows-ok :
    {A : Type 0} (Q : A → Log → Type 0) (r : Result A) (a : A) (l : Log)
    → r ≡ ok a l
    → Allows Q r
    → Q a l
Allows-ok Q r a l e q = rw e at q

module _ (size : ℕ) (l : Log) (used : List ℕ) (is : IsReserved size l used) where
  begin_op-IsReserved : Allows (λ _ l'. IsReserved size l' (0 ∷ used)) (begin_op l)
  unfolding begin_op
  begin_op-IsReserved = elim (Bool-cases l.committing) [
    | inl busy ↦ rw busy tt
    | inr calm ↦ elim (Bool-cases (ltb logsize (length l.lh + (l.outstanding + 1) * maxopblocks))) [
      | inl full ↦ rw (calm, full) tt
      | inr fits ↦
          rw (calm, fits)
            (record {
              sized = is.sized;
              counted = omega (arith, is.counted);
              bounded = (omega arith, is.bounded);
              room = omega (arith, ltb-false_le _ _ fits, is.counted);
              quiet = λ e. absurd (cc);
            })
    ]
  ]

  end_op-IsReserved :
      (k : ℕ) → k < length used → Allows (λ _ l'. IsReserved size l' (remove k used)) (end_op l)
  unfolding end_op
  end_op-IsReserved k h =
      let (shorter, less) = sum-remove used k h is.bounded in
      elim (Bool-cases (l.outstanding == 0)) [
        | inl none ↦ rw none tt
        | inr some_left ↦ elim (Bool-cases l.committing) [
          | inl busy ↦ rw (some_left, busy) tt
          | inr calm ↦ elim (Bool-cases (l.outstanding - 1 == 0)) [
            | inl last ↦
                rw (some_left, calm, last)
                  (record {
                    sized = is.sized;
                    counted = omega (arith, is.counted, shorter);
                    bounded = All-remove used k is.bounded;
                    room = omega (arith, is.room, shorter, less);
                    quiet = λ e.
                        omega (arith, (==_iff (l.outstanding - 1) 0).0 last, is.counted, shorter);
                  })
            | inr more ↦
                rw (some_left, calm, more)
                  (record {
                    sized = is.sized;
                    counted = omega (arith, is.counted, shorter);
                    bounded = All-remove used k is.bounded;
                    room = omega (arith, is.room, shorter, less);
                    quiet = λ e. absurd (cc);
                  })
          ]
        ]
      ]

  log_write-IsReserved :
      (k b : ℕ)
      → k < length used
      → get_or used k 0 < maxopblocks
      → Allows (λ _ l'. IsReserved size l' (set used k (suc (get_or used k 0)))) (log_write b l)
  unfolding log_write
  log_write-IsReserved k b h room =
      elim (Bool-cases (leb logsize (length l.lh) || leb (l.size - 1) (length l.lh))) [
        | inl full ↦ rw full tt
        | inr fits ↦ elim (Bool-cases (ltb l.outstanding 1)) [
          | inl idle ↦ rw (fits, idle) tt
          | inr inside ↦
              rw (fits, inside)
                (record {
                  sized = is.sized;
                  counted = is.counted ∙ sym (length-set used k _);
                  bounded = All-set used k _ room is.bounded;
                  room = omega (
                    arith,
                    sum-set used k h,
                    length-set used k (suc (get_or used k 0)),
                    absorb-length b l.lh,
                    is.room,
                  );
                  quiet = λ e. omega (arith, h, is.quiet e);
                })
        ]
      ]

  end_commit-IsReserved : l.committing ≡ true → IsReserved size (end_commit l) used
  unfolding end_commit
  end_commit-IsReserved e = record {
    sized = is.sized;
    counted = is.counted;
    bounded = is.bounded;
    room = omega (arith, is.room, is.quiet e);
    quiet = λ e. absurd (cc);
  }

-- A log that is empty, with no operation running.
abbrev pub new_log : ℕ → Log
new_log size = record { size = size; outstanding = 0; committing = false; lh = [] }

Step-IsReserved :
    (size : ℕ) (l l' : Log) (used used' : List ℕ)
    → IsReserved size l used
    → Step l used l' used'
    → IsReserved size l' used'
Step-IsReserved size l l' used used' is (begins e) =
    Allows-ok _ (begin_op l) tt l' e (begin_op-IsReserved size l used is)
Step-IsReserved size l l' used used' is (writes k b h room e) =
    Allows-ok _ (log_write b l) _ l' e (log_write-IsReserved size l used is k b h room)
Step-IsReserved size l l' used used' is (ends k h e) =
    Allows-ok _ (end_op l) _ l' e (end_op-IsReserved size l used is k h)
Step-IsReserved size l l' used used' is (commits e) = end_commit-IsReserved size l used is e

pub Reach-IsReserved :
    (size : ℕ) (l : Log) (used : List ℕ) → Reach (new_log size) l used → IsReserved size l used
Reach-IsReserved size l used start = record {
  sized = refl;
  counted = refl;
  bounded = tt;
  room = omega arith;
  quiet = λ e. refl;
}
Reach-IsReserved size l used (next r s) =
    Step-IsReserved size _ l _ used (Reach-IsReserved size _ _ r) s
