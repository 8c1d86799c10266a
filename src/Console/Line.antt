-- ===== src/Console/Line.antt =====
-- consoleread(): what it takes from the console.
use os.Prelude.{
  ℕ, zero, suc, ◌+◌, ◌-◌, ◌%◌, ◌<◌, ◌≤◌, ◌≡◌, ◌≢◌, ◌⊎◌, inl, inr, sym, ap, ◌∙◌, Bool, false, List,
  [], ◌∷◌, ◌==◌, ltb, if◌then◌else◌, arith, Bool-cases, ==_iff, u32,
}
use mathlib.Core.Path.{subst}
use os.Console.{Cons, Exit, returned, failed, asleep, newline, ctrl_d, input_buf_size, consoleread}
use os.Console.Edit.{Typed, Holds}

-- `k` characters from `j` on
unfoldable pub sent : (ℕ → ℕ) → ℕ → ℕ → List ℕ
sent at j zero = []
sent at j (suc k) = at j ∷ sent at (j + 1) k

-- what is there once `j` characters have been taken
abbrev pub from : Typed → ℕ → Typed
from x j = record { at = λ i. x.at (j + i); ready = x.ready - j; line = x.line }

-- How a stretch that begins at character `j` with `n` bytes to go ends at character `m`: it
-- has `n` bytes or a whole line; it is at control-d, which it takes only if the call has no
-- byte; there are no more characters; or the next one could not be stored and is lost.
pub data Ends (x : Typed) (copyout : ℕ → ℕ → Bool) (killed : Bool) (target dst n j m : ℕ)
    (exit : Exit) (t : Cons) : Type 0 where
  full :
      exit ≡ returned (target - (j + n - m))
      → (m ≡ j + n) ⊎ ((j < m) × (x.at (m - 1) ≡ newline))
      → Holds t (from x m)
      → Ends x copyout killed target dst n j m exit t
  eof :
      exit ≡ returned (target - (j + n - m))
      → m < x.ready
      → x.at m ≡ ctrl_d
      → Holds t (from x (if ltb (j + n - m) target then m else m + 1))
      → Ends x copyout killed target dst n j m exit t
  drained :
      exit ≡ (if killed then failed else asleep (j + n - m) (dst + (m - j)))
      → m ≡ x.ready
      → Holds t (from x m)
      → Ends x copyout killed target dst n j m exit t
  fault :
      exit ≡ returned (target - (j + n - m))
      → m < x.ready
      → copyout (dst + (m - j)) (x.at m) ≡ false
      → Holds t (from x (m + 1))
      → Ends x copyout killed target dst n j m exit t

-- The stretch stores the characters from `j` up to `m`, of which only the last may end a line.
pub record Took (x : Typed) (copyout : ℕ → ℕ → Bool) (killed : Bool) (target dst n j : ℕ)
    (exit : Exit) (stored : List ℕ) (t : Cons) : Type 0 where
  pub m : ℕ
  pub ge : j ≤ m
  pub le : m ≤ x.ready
  pub most : m ≤ j + n
  pub out : stored ≡ sent x.at j (m - j)
  pub inside : (i : ℕ) → j ≤ i → i < m → (x.at i ≢ ctrl_d) × (i + 1 < m → x.at i ≢ newline)
  pub ends : Ends x copyout killed target dst n j m exit t

step-Holds :
    (s : Cons) (x : Typed) (j : ℕ)
    → Holds s (from x j)
    → j < x.ready
    → Holds (record s { r = u32 (s.r + 1) }) (from x (j + 1))
step-Holds s x j h lt = record {
  word = omega arith;
  w = omega (arith, h.w, h.word, lt, h.room);
  e = omega (arith, h.e, h.word, lt, h.room);
  room = omega (arith, h.room);
  ring = λ i il.
      ap s.buf (omega (arith, h.word))
      ∙ h.ring (i + 1) (omega (arith, il, lt))
      ∙ ap x.at (omega arith);
  open_line = λ i le il.
      let o = h.open_line (i + 1) (omega (arith, le, lt)) (omega (arith, il, lt)) in
      subst (λ p. (x.at p ≢ newline) × (x.at p ≢ ctrl_d)) (omega arith) o;
}

from_start-Holds : (s : Cons) (x : Typed) → Holds s x → Holds s (from x 0)
from_start-Holds s x h = record {
  word = h.word;
  w = omega (arith, h.w);
  e = omega (arith, h.e);
  room = omega (arith, h.room);
  ring = λ i lt. h.ring i (omega (arith, lt)) ∙ ap x.at (omega arith);
  open_line = λ i le lt.
      subst (λ p. (x.at p ≢ newline) × (x.at p ≢ ctrl_d)) (omega arith)
        (h.open_line i (omega (arith, le)) (omega (arith, lt)));
}

module _ (x : Typed) (copyout : ℕ → ℕ → Bool) (killed : Bool) (target : ℕ) where
  -- nothing is stored
  none-Took :
      (dst n j : ℕ) (exit : Exit) (t : Cons)
      → j ≤ x.ready
      → Ends x copyout killed target dst n j j exit t
      → Took x copyout killed target dst n j exit [] t
  unfolding sent
  none-Took dst n j exit t le ends = record {
    m = j;
    ge = omega arith;
    le = le;
    most = omega arith;
    out = ap (sent x.at j) {x = 0} (omega arith);
    inside = λ i ge lt. absurd (omega (arith, ge, lt));
    ends = ends;
  }

  next-Ends :
      (dst n j m : ℕ) (exit : Exit) (t : Cons)
      → j + 1 ≤ m
      → Ends x copyout killed target (dst + 1) n (j + 1) m exit t
      → Ends x copyout killed target dst (suc n) j m exit t
  next-Ends dst n j m exit t ge (full e why h) =
      full (e ∙ ap (λ k. returned (target - k)) (omega arith))
        (elim why [
          | inl all ↦ inl (omega (arith, all))
          | inr (lt, nl) ↦ inr (omega (arith, lt), nl)
        ])
        h
  next-Ends dst n j m exit t ge (eof e lt d h) =
      eof (e ∙ ap (λ k. returned (target - k)) (omega arith)) lt d
        (subst (λ k. Holds t (from x (if ltb k target then m else m + 1))) (omega arith) h)
  next-Ends dst n j m exit t ge (drained e d h) =
      drained
        (e
          ∙ ap {A = ℕ} (λ k. if killed then failed else asleep k (dst + 1 + (m - (j + 1))))
              (omega arith)
          ∙ ap {A = ℕ} (λ a. if killed then failed else asleep (j + suc n - m) a)
              (omega (arith, ge)))
        d h
  next-Ends dst n j m exit t ge (fault e lt f h) =
      fault (e ∙ ap (λ k. returned (target - k)) (omega arith)) lt
        (subst (λ a. copyout a (x.at m) ≡ false) (omega (arith, ge)) f) h

  next-Took :
      (dst n j : ℕ) (exit : Exit) (out : List ℕ) (t : Cons)
      → x.at j ≢ ctrl_d
      → x.at j ≢ newline
      → Took x copyout killed target (dst + 1) n (j + 1) exit out t
      → Took x copyout killed target dst (suc n) j exit (x.at j ∷ out) t
  unfolding sent
  next-Took dst n j exit out t d nl r = record {
    m = r.m;
    ge = omega (arith, r.ge);
    le = r.le;
    most = omega (arith, r.most);
    out =
        ap (λ l. x.at j ∷ l) r.out
        ∙ ap (sent x.at j) {x = suc (r.m - (j + 1))} (omega (arith, r.ge));
    inside = λ i ge lt. elim (Bool-cases (i == j)) [
      | inl e ↦
          let is : i ≡ j = (==_iff _ _).0 e in
          (λ z. d (ap x.at (sym is) ∙ z), λ _ z. nl (ap x.at (sym is) ∙ z))
      | inr ne ↦ r.inside i (ground (arith, ge)) lt
    ];
    ends = next-Ends dst n j r.m exit t r.ge r.ends;
  }

  -- the last byte of a line
  last-Took :
      (dst n j : ℕ) (t : Cons)
      → x.at j ≡ newline
      → j < x.ready
      → Holds t (from x (j + 1))
      → Took x copyout killed target dst (suc n) j (returned (target - n)) (x.at j ∷ []) t
  unfolding sent
  last-Took dst n j t nl lt h = record {
    m = j + 1;
    ge = omega arith;
    le = omega (arith, lt);
    most = omega arith;
    out = ap (sent x.at j) {x = 1} (omega arith);
    inside = λ i ge il.
        let is : j ≡ i = omega (arith, ge, il) in
        (λ z. ground (arith, nl, ap x.at is ∙ z), λ more. absurd (omega (arith, ge, more)));
    ends =
        full (ap (λ k. returned (target - k)) (omega arith))
          (inr (omega arith, ap x.at {x = j + 1 - 1} {y = j} (omega arith) ∙ nl)) h;
  }

  eof-Holds :
      (n j : ℕ) (s : Cons)
      → Holds s (from x j)
      → Holds (record s { r = u32 (s.r + 1) }) (from x (j + 1))
      → Holds
          (if ltb n target then s else record s { r = u32 (s.r + 1) })
          (from x (if ltb (j + n - j) target then j else j + 1))
  eof-Holds n j s h later =
      let e : j + n - j ≡ n = omega arith in
      rw e (elim (Bool-cases (ltb n target)) [ inl f ↦ rw f h | inr f ↦ rw f later ])

  abbrev pub Reads : ℕ → ℕ → ℕ → Exit × List ℕ × Cons → Type 0
  Reads dst n j r = Took x copyout killed target dst n j r.0 r.1 r.2

  consoleread_at-Took :
      (n dst j : ℕ) (s : Cons)
      → Holds s (from x j)
      → j ≤ x.ready
      → Reads dst n j (consoleread copyout killed target dst n s)
  unfolding consoleread
  consoleread_at-Took zero dst j s h le =
      none-Took dst 0 j (returned target) s le
        (full (ap returned (omega arith)) (inl (omega arith)) h)
  consoleread_at-Took (suc n) dst j s h le = elim (Bool-cases (s.r == s.w)) [
    | inl e ↦
        let is : j ≡ x.ready = ground (arith, h.w, h.word, h.room) in
        rw e (
          none-Took dst (suc n) j (if killed then failed else asleep (suc n) dst) s le (
            drained
              (ap {A = ℕ} (λ k. if killed then failed else asleep k dst) (omega arith)
                ∙ ap {A = ℕ} (λ a. if killed then failed else asleep (j + suc n - j) a)
                    (omega arith))
              is h))
    | inr ne ↦
        let lt : j < x.ready = ground (arith, h.w, h.word, h.room) in
        let c : s.buf (s.r % input_buf_size) ≡ x.at j =
          ap s.buf (omega arith) ∙ h.ring 0 (omega (arith, lt)) ∙ ap x.at (omega arith) in
        let later = step-Holds s x j h lt in
        rw (ne, c)
          (elim (Bool-cases (x.at j == ctrl_d)) [
            | inl d ↦ rw d (
                none-Took dst (suc n) j (returned (target - suc n)) _ le (
                  eof (ap (λ k. returned (target - k)) (omega arith)) lt ((==_iff _ _).0 d)
                    (eof-Holds (suc n) j s h later)))
            | inr d ↦ rw d (elim (Bool-cases (copyout dst (x.at j))) [
              | inr f ↦ rw f (
                  none-Took dst (suc n) j (returned (target - suc n)) _ le (
                    fault (ap (λ k. returned (target - k)) (omega arith)) lt
                      (subst (λ a. copyout a (x.at j) ≡ false) (omega arith) f) later))
              | inl f ↦ rw f (elim (Bool-cases (x.at j == newline)) [
                | inl l ↦ rw l (last-Took dst n j _ ((==_iff _ _).0 l) lt later)
                | inr l ↦ rw l (
                    next-Took dst n j _ _ _ (ground arith) (ground arith) (
                      consoleread_at-Took n (dst + 1) (j + 1) (record s { r = u32 (s.r + 1) }) later
                        (omega (arith, lt))))
              ])
            ])
          ])
  ]

-- Where the indices cut the ring into characters for the reader and a line, a stretch of
-- consoleread() with `n` bytes to go of the `target` of the call takes characters in order and
-- stores them. It stops after `n` bytes or an end of line, none of which was stored before; at a
-- control-d, which it takes only if the call has stored nothing; after one that cannot be stored,
-- which is lost; or when there are no more, and then it sleeps or, in a killed process, fails. The
-- indices then cut the ring into the characters that are left for the reader and the same line.
pub consoleread-Took :
    (x : Typed) (copyout : ℕ → ℕ → Bool) (killed : Bool) (target n dst : ℕ) (s : Cons)
    → Holds s x
    → Reads x copyout killed target dst n 0 (consoleread copyout killed target dst n s)
consoleread-Took x copyout killed target n dst s h =
    consoleread_at-Took x copyout killed target n dst 0 s (from_start-Holds s x h) (omega arith)
