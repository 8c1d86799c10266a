-- ===== src/Console/Edit.antt =====
-- consoleintr(): what it does to the characters that are typed.
use os.Prelude.{
  ℕ, zero, suc, ◌+◌, ◌-◌, ◌%◌, ◌^◌, ◌<◌, ◌≤◌, ◌≡◌, ◌≢◌, inl, inr, refl, ap, ◌∙◌, true, false, not,
  ◌&&◌, ◌||◌, ◌==◌, ltb, if◌then◌else◌, update, arith, Bool-cases, u8, u32,
}
use mathlib.Core.Path.{subst}
use os.Console.{
  Cons, newline, ctrl_p, ctrl_u, ctrl_h, ctrl_d, delete, input_buf_size, consputc, erase, kill_line,
  put_char, consoleintr,
}

-- what the console holds: the characters in order, how many are for the reader, and how many
-- belong to the line that is being typed
pub record Typed : Type 0 where
  pub at : ℕ → ℕ
  pub ready : ℕ
  pub line : ℕ

-- The three indices cut the ring into these characters, and the line has no end of line in it.
pub record Holds (s : Cons) (x : Typed) : Type 0 where
  pub word : s.r < 2 ^ 32
  pub w : s.w ≡ u32 (s.r + x.ready)
  pub e : s.e ≡ u32 (s.r + (x.ready + x.line))
  pub room : x.ready + x.line ≤ input_buf_size
  pub ring : (i : ℕ) → i < x.ready + x.line → s.buf ((s.r + i) % input_buf_size) ≡ x.at i
  pub open_line :
      (i : ℕ) → x.ready ≤ i → i < x.ready + x.line → (x.at i ≢ newline) × (x.at i ≢ ctrl_d)

-- the effect of a key
unfoldable pub edit : ℕ → Typed → Typed
edit c x =
    let k = if c == 13 then newline else c in
    let n = x.ready + x.line in
    if c == ctrl_p
    then x
    else if c == ctrl_u
    then record x { line = 0 }
    else if c == ctrl_h || c == delete
    then record x { line = x.line - 1 }
    else if c == 0 || n == input_buf_size
    then x
    else if k == newline || k == ctrl_d || n + 1 == input_buf_size
    then record { at = update x.at n k; ready = n + 1; line = 0 }
    else record x { at = update x.at n k; line = x.line + 1 }

-- one character less
erase-Holds :
    (s : Cons) (x : Typed)
    → Holds s x
    → x.line ≢ 0
    → Holds (erase s) (record x { line = x.line - 1 })
unfolding erase consputc
erase-Holds s x h nz = record {
  word = h.word;
  w = h.w;
  e = ground (arith, h.e, h.word, h.room);
  room = omega (arith, h.room);
  ring = λ i lt. h.ring i (omega (arith, lt));
  open_line = λ i le lt. h.open_line i le (omega (arith, lt));
}

is_empty : (s : Cons) (x : Typed) → Holds s x → (s.e == s.w) ≡ (x.line == 0)
is_empty s x h = ground (arith, h.w, h.e, h.word, h.room)

last_index :
    (s : Cons) (x : Typed)
    → Holds s x
    → x.line ≢ 0
    → u32 (s.e + 2 ^ 32 - 1) % input_buf_size ≡ (s.r + (x.ready + (x.line - 1))) % input_buf_size
last_index s x h nz = omega (arith, h.e, h.word, h.room, nz)

-- the loop stops when the line is empty, since no character of it is an end of line
kill_line-Holds :
    (fuel : ℕ) (s : Cons) (x : Typed)
    → Holds s x
    → x.line ≤ fuel
    → Holds (kill_line fuel s) (record x { line = 0 })
unfolding kill_line
kill_line-Holds zero s x h le = subst (λ l. Holds s (record x { line = l })) (omega arith) h
kill_line-Holds (suc fuel) s x h le = elim (Bool-cases (x.line == 0)) [
  | inl z ↦
      let e = is_empty s x h ∙ z in
      rw e (subst (λ l. Holds s (record x { line = l })) (ground arith) h)
  | inr nz ↦
      let e = is_empty s x h ∙ nz in
      let last : s.buf (u32 (s.e + 2 ^ 32 - 1) % input_buf_size) ≡ x.at (x.ready + (x.line - 1)) =
        ap s.buf (last_index s x h (ground arith))
        ∙ h.ring (x.ready + (x.line - 1)) (ground arith) in
      let f : (s.buf (u32 (s.e + 2 ^ 32 - 1) % input_buf_size) == newline) ≡ false =
        ground
          (arith, last, (h.open_line (x.ready + (x.line - 1)) (omega arith) (ground arith)).0) in
      rw (e, f)
        (kill_line-Holds fuel (erase s) (record x { line = x.line - 1 })
          (erase-Holds s x h (ground arith)) (ground arith))
]

-- the character goes behind the others
module _ (s : Cons) (x : Typed) (k : ℕ) (h : Holds s x) (small : k < 256)
    (free : x.ready + x.line < input_buf_size) where
  stored :
      (i : ℕ)
      → i < x.ready + x.line + 1
      → update s.buf (s.e % input_buf_size) (u8 k) ((s.r + i) % input_buf_size)
        ≡ update x.at (x.ready + x.line) k i
  stored i lt = elim (Bool-cases (i == x.ready + x.line)) [
    | inl e ↦
        let is : ((s.r + i) % input_buf_size == s.e % input_buf_size) ≡ true =
          ground (arith, h.e, h.word) in
        let byte : u8 k ≡ k = omega (arith, small) in rw (e, is, byte) refl
    | inr ne ↦
        let is : ((s.r + i) % input_buf_size == s.e % input_buf_size) ≡ false =
          ground (arith, h.e, h.word, free) in
        rw (ne, is) (h.ring i (ground (arith, lt)))
  ]

  is_last : u32 (u32 (s.e + 1) + 2 ^ 32 - s.r) ≡ x.ready + x.line + 1
  is_last = omega (arith, h.e, h.word, free)

  next : Typed
  next =
      if k == newline || k == ctrl_d || x.ready + x.line + 1 == input_buf_size
      then record { at = update x.at (x.ready + x.line) k; ready = x.ready + x.line + 1; line = 0 }
      else record x { at = update x.at (x.ready + x.line) k; line = x.line + 1 }

  put_char-Holds :
      ((put_char k s).0 ≡ (k == newline || k == ctrl_d || x.ready + x.line + 1 == input_buf_size))
      × Holds (put_char k s).1 next
  unfolding put_char consputc next
  put_char-Holds =
      rw is_last
        (elim (Bool-cases (k == newline || k == ctrl_d || x.ready + x.line + 1 == input_buf_size)) [
          | inl e ↦ rw e (
            refl,
            record {
              word = h.word;
              w = omega (arith, h.e, h.word);
              e = omega (arith, h.e, h.word);
              room = omega (arith, free);
              ring = λ i lt. stored i (omega (arith, lt));
              open_line = λ i le lt. absurd (omega (arith, le, lt));
            },
          )
          | inr e ↦ rw e (
            refl,
            record {
              word = h.word;
              w = h.w;
              e = omega (arith, h.e, h.word);
              room = omega (arith, free);
              ring = λ i lt. stored i (omega (arith, lt));
              open_line = λ i le lt. elim (Bool-cases (i == x.ready + x.line)) [
                | inl f ↦ rw f (ground arith, ground arith)
                | inr f ↦ rw f (h.open_line i le (ground (arith, lt)))
              ];
            },
          )
        ])

  put_char-edit : ((put_char k s).0 ≡ ltb x.ready next.ready) × Holds (put_char k s).1 next
  unfolding next
  put_char-edit = (put_char-Holds.0 ∙ woken, put_char-Holds.1)
    where
      woken :
          (k == newline || k == ctrl_d || x.ready + x.line + 1 == input_buf_size)
          ≡ ltb x.ready next.ready
      woken =
          elim (Bool-cases
            (k == newline || k == ctrl_d || x.ready + x.line + 1 == input_buf_size)) [
              | inl e ↦ rw e (ground arith)
              | inr e ↦ rw e (ground arith)
            ]

-- Where the indices cut the ring into characters for the reader and a line, consoleintr() has the
-- effect of the key on these: it erases a character or the line, or adds a character unless there
-- are 128, and the line goes to the reader, who is woken, at an end of line, at control-d and
-- at the last place of the ring. Before any key the three indices still cut the ring.
pub consoleintr-edit :
    (c : ℕ) (s : Cons) (x : Typed)
    → c < 256
    → Holds s x
    → ((consoleintr c s).0 ≡ ltb x.ready (edit c x).ready) × Holds (consoleintr c s).1 (edit c x)
unfolding consoleintr edit next
consoleintr-edit c s x small h = elim (Bool-cases (c == ctrl_p)) [
  | inl e ↦ rw e (ground arith, h)
  | inr e ↦ rw e (elim (Bool-cases (c == ctrl_u)) [
    | inl u ↦ rw u (ground arith, kill_line-Holds input_buf_size s x h (omega (arith, h.room)))
    | inr u ↦ rw u (elim (Bool-cases (c == ctrl_h || c == delete)) [
      | inl b ↦ rw b (ground arith, back)
      | inr b ↦ rw b (elim (Bool-cases (c == 0 || x.ready + x.line == input_buf_size)) [
        | inl f ↦
            let g : (not (c == 0) && ltb (u32 (s.e + 2 ^ 32 - s.r)) input_buf_size) ≡ false =
              ground (arith, f, count) in
            rw (g, f) (ground arith, h)
        | inr f ↦
            let g : (not (c == 0) && ltb (u32 (s.e + 2 ^ 32 - s.r)) input_buf_size) ≡ true =
              ground (arith, f, count, h.room) in
            rw (g, f)
              (put_char-edit s x (if c == 13 then newline else c) h (ground (arith, small))
                (ground (arith, f, h.room)))
      ])
    ])
  ])
]
  where
    count : u32 (s.e + 2 ^ 32 - s.r) ≡ x.ready + x.line
    count = omega (arith, h.e, h.word, h.room)

    back : Holds (if not (s.e == s.w) then erase s else s) (record x { line = x.line - 1 })
    back = elim (Bool-cases (x.line == 0)) [
      | inl z ↦
          let e = is_empty s x h ∙ z in
          rw e (subst (λ l. Holds s (record x { line = l })) (ground arith) h)
      | inr nz ↦ let e = is_empty s x h ∙ nz in rw e (erase-Holds s x h (ground arith))
    ]
