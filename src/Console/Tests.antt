-- ===== src/Console/Tests.antt =====
-- Runs of kernel/console.c, and the theorems about it at concrete buffers.
use csci5103_lab.Common.{[], ◌∷◌, ◌≡◌, refl, arith, true, false, ◌==◌, if◌then◌else◌}
use csci5103_lab.Console.{Console, consputc, wakeup_readers, store, consoleintr, consoleread_round}
use csci5103_lab.Console.Input.{IsInput}
use csci5103_lab.Console.Interrupt.{typed, consoleintr-IsInput}
use csci5103_lab.Console.Reading.{Reads, consoleread_round-Reads}

-- "a" is being edited, at the end of the ring.
abbrev editing : Console
editing = record { buf = λ i. if i == 127 then 97 else 0; r = 127; w = 127; e = 128 }

editing-IsInput : IsInput editing 127 [] (97 ∷ [])
editing-IsInput = record {
  read_count = refl;
  ready_count = refl;
  edit_count = refl;
  fits = omega arith;
  ready_chars = tt;
  line_chars = (refl, tt);
  no_newline = (ground arith, tt);
}

-- "b" and ^D are ready.
abbrev ready_end : Console
ready_end = record { buf = λ i. if i == 127 then 98 else 4; r = 127; w = 129; e = 129 }

ready_end-IsInput : IsInput ready_end 127 (98 ∷ 4 ∷ []) []
ready_end-IsInput = record {
  read_count = refl;
  ready_count = refl;
  edit_count = refl;
  fits = omega arith;
  ready_chars = (refl, (refl, tt));
  line_chars = tt;
  no_newline = tt;
}

test_newline : (consoleintr 13 editing).1 ≡ consputc 10 ∷ wakeup_readers ∷ []
unfolding consoleintr store
test_newline = refl

consoleintr-IsInput_example :
    IsInput (consoleintr 13 editing).0 127 (typed 13 [] (97 ∷ [])).0 (typed 13 [] (97 ∷ [])).1
consoleintr-IsInput_example = consoleintr-IsInput 13 editing 127 [] (97 ∷ []) editing-IsInput

consoleread_round-Reads_example :
    Reads 127 (98 ∷ 4 ∷ []) [] false false true (consoleread_round ready_end false false true)
consoleread_round-Reads_example =
    consoleread_round-Reads ready_end 127 (98 ∷ 4 ∷ []) [] false false true ready_end-IsInput
