-- ===== src/Console/Tests.antt =====
-- A console with one typed character, which control-h takes back and an end of line hands over.
use os.Prelude.{ℕ, ◌≡◌, refl, true, false, [], ◌∷◌, ltb, update, arith}
use os.Console.{Cons, consoleintr, consoleread}
use os.Console.Edit.{Typed, Holds, edit, consoleintr-edit}
use os.Console.Line.{Reads, consoleread-Took}

abbrev one : ℕ → ℕ
one = update (λ _. 0) 0 97

-- 'a' is in the ring, behind indices that have come around
abbrev typing : Cons
typing = record { buf = one; r = 256; w = 256; e = 257; echo = 97 ∷ [] }

abbrev a_line : Typed
a_line = record { at = λ _. 97; ready = 0; line = 1 }

typing-Holds : Holds typing a_line
typing-Holds = record {
  word = omega arith;
  w = refl;
  e = refl;
  room = omega arith;
  ring = λ i lt. ground (arith, lt);
  open_line = λ i le lt. (omega arith, omega arith);
}

consoleintr-edit_example :
    ((consoleintr 10 typing).0 ≡ ltb 0 (edit 10 a_line).ready)
    × Holds (consoleintr 10 typing).1 (edit 10 a_line)
consoleintr-edit_example = consoleintr-edit 10 typing a_line (omega arith) typing-Holds

-- the reader has 'a' and an end of line
abbrev typed : Cons
typed = record { buf = update one 1 10; r = 256; w = 258; e = 258; echo = [] }

abbrev two : Typed
two = record { at = update (λ _. 97) 1 10; ready = 2; line = 0 }

typed-Holds : Holds typed two
typed-Holds = record {
  word = omega arith;
  w = refl;
  e = refl;
  room = omega arith;
  ring = λ i lt. ground (arith, lt);
  open_line = λ i le lt. absurd (omega (arith, le, lt));
}

reads_line : (consoleread (λ _ _. true) false 100 8 100 typed).1 ≡ 97 ∷ 10 ∷ []
unfolding consoleread
reads_line = refl

consoleread-Took_example :
    Reads two (λ _ _. true) false 100 8 100 0 (consoleread (λ _ _. true) false 100 8 100 typed)
consoleread-Took_example = consoleread-Took two (λ _ _. true) false 100 100 8 typed typed-Holds
