-- ===== src/Str/Tests.antt =====
-- The string functions at concrete inputs.
use os.Prelude.{ℕ, ◌≤◌, ◌⊎◌, false, true, some, update, ◌+◌, ◌<◌, ◌≡◌, ◌↔◌, ◌%◌, arith, refl}
use os.Str.{Memory, copy_down, memmove, strncmp, strlen, strncpy, safestrcpy}
use os.Str.Text.{ended, strncmp-zero, strlen-some}
use os.Str.Copy.{padded, strncpy-padded, safestrcpy-string}
use os.Str.Move.{moved, memmove-moved}

-- address `a` holds `a` modulo 256
abbrev ramp : Memory
ramp a = a % 256

-- the ranges from 10 and from 12 overlap
overlapping : memmove 12 10 4 ramp 15 ≡ 13
unfolding memmove copy_down
overlapping = refl

memmove-moved_example : memmove 12 10 4 ramp 15 ≡ moved 12 10 4 ramp 15
memmove-moved_example = memmove-moved 12 10 4 ramp 15

-- "ab" at 100, "ac" at 200
abbrev texts : Memory
texts = update (update (update (update (λ _. 0) 100 97) 101 98) 200 97) 201 99

abbrev AllBytes : Type 0
AllBytes = (a : ℕ) → texts a < 256

texts-bytes : AllBytes
texts-bytes a = ground arith

strncmp-zero_example :
    (strncmp 100 200 5 texts ≡ 0)
    ↔ ((k : ℕ) → k < 5 → ended texts 100 k ≡ false → texts (100 + k) ≡ texts (200 + k))
strncmp-zero_example = strncmp-zero 100 200 5 texts texts-bytes

strlen-some_example : strlen 9 100 texts ≡ some 2
strlen-some_example = strlen-some 9 100 2 texts (omega arith) (λ j lt e. ground (arith, e)) refl

strncpy-padded_example : strncpy 300 100 5 texts 303 ≡ padded 300 100 5 texts 303
strncpy-padded_example = strncpy-padded 300 100 5 texts 303 (omega arith)

safestrcpy-string_example :
    let m' = safestrcpy 300 100 2 texts in
    (ended m' 300 2 ≡ true)
    × ((k : ℕ) → k + 1 < 2 → ended texts 100 k ≡ false → m' (300 + k) ≡ texts (100 + k))
    × ((a : ℕ) → (a < 300) ⊎ (300 + 2 ≤ a) → m' a ≡ texts a)
safestrcpy-string_example = safestrcpy-string 300 100 2 texts (omega arith) (omega arith)
