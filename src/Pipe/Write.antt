-- ===== src/Pipe/Write.antt =====
-- One stretch of pipewrite against the queue of the pipe.
use os.Prelude.{
  ℕ, zero, suc, ◌+◌, ◌<◌, ◌≡◌, ◌⊎◌, inl, inr, refl, Bool, true, false, not, ◌||◌, Option, none,
  some, List, [], ◌∷◌, ◌++◌, append-nil, append_assoc, arith, u64, length, Bool-cases, Option-cases,
}
use mathlib.Core.Path.{subst₂}
use os.Pipe.{
  Pipe, pipe_size, Stretch, Exit, returned, failed, asleep, nread_chan, is_full, put, write_loop,
}
use os.Pipe.Fifo.{IsValid, count, contents, is_full_iff, put-IsValid, contents-put}

-- the bytes `ws` stand in user memory from `addr + i` on
abbrev pub Fetched : (ℕ → Option ℕ) → ℕ → ℕ → List ℕ → Type 0
Fetched copyin addr i [] = Unit
Fetched copyin addr i (w ∷ ws) = (copyin (u64 (addr + i)) ≡ some w) × Fetched copyin addr (i + 1) ws

i_add_zero : (i : ℕ) → i + 0 ≡ i
i_add_zero i = omega arith

module _ (copyin : ℕ → Option ℕ) (killed : ℕ → Bool) (addr : ℕ) where
  -- How the stretch ended, after `j` rounds since the call, of `last` that it wants.
  abbrev pub Ended : Exit → ℕ → ℕ → Stretch → Type 0
  Ended (returned k) j last s =
      (k ≡ j) × ((j ≡ last) ⊎ (copyin (u64 (addr + j)) ≡ none)) × (s.wakes ≡ nread_chan ∷ [])
  Ended failed j last s = ((s.pipe.readopen ≡ false) ⊎ (killed j ≡ true)) × (s.wakes ≡ [])
  Ended (asleep k) j last s =
      (k ≡ j)
      × (j < last)
      × (count s.pipe ≡ pipe_size)
      × (s.pipe.readopen ≡ true)
      × (s.wakes ≡ nread_chan ∷ [])

  -- what a stretch that starts at index `i` with the pipe `p` has done when it stops
  pub record Wrote (left i : ℕ) (p : Pipe) (s : Stretch) : Type 0 where
    pub valid : IsValid s.pipe
    pub written : List ℕ
    pub fetched : Fetched copyin addr i written
    pub appended : contents s.pipe ≡ contents p ++ written
    pub ended : Ended s.exit (i + length written) (i + left) s
    pub ends_kept : (s.pipe.readopen ≡ p.readopen) × (s.pipe.writeopen ≡ p.writeopen)

  stop :
      (left i : ℕ) (p : Pipe) (s : Stretch)
      → IsValid p
      → s.pipe ≡ p
      → Ended s.exit i (i + left) s
      → Wrote left i p s
  stop left i p s v e d = record {
    valid = rw e v;
    written = [];
    fetched = tt;
    appended = rw (e, append-nil);
    ended = rw (i_add_zero i) d;
    ends_kept = rw e (refl, refl);
  }

  advance :
      (left i ch : ℕ) (p : Pipe) (s : Stretch)
      → IsValid p
      → count p < pipe_size
      → copyin (u64 (addr + i)) ≡ some ch
      → Wrote left (i + 1) (put p ch) s
      → Wrote (suc left) i p s
  advance left i ch p s v room e w = record {
    valid = w.valid;
    written = ch ∷ w.written;
    fetched = (e, w.fetched);
    appended =
        rw (w.appended, contents-put ch v room) (append_assoc (contents p) (ch ∷ []) w.written);
    ended = subst₂ (λ j last. Ended s.exit j last s) (omega arith) (omega arith) w.ended;
    ends_kept = unfold put in w.ends_kept;
  }

  -- A stretch of pipewrite appends to the queue, in order, the bytes that it fetched from user
  -- memory, keeps the pipe valid and its two ends as they were, and says how it ended: with a
  -- count it has written all that it wanted or met a fault, asleep it has filled the pipe with the
  -- read end open, and failed the read end was closed or the process killed. It wakes the readers
  -- but where it fails.
  pub write_loop-Wrote :
      (left i : ℕ) (p : Pipe) → IsValid p → Wrote left i p (write_loop copyin killed addr left i p)
  unfolding write_loop
  write_loop-Wrote zero i p v = stop zero i p _ v refl (refl, inl (omega arith), refl)
  write_loop-Wrote (suc left) i p v = elim (Bool-cases (not p.readopen || killed i)) [
    | inl dead ↦ rw dead (stop (suc left) i p _ v refl (ground arith, refl))
    | inr live ↦ rw live (elim (Bool-cases (is_full p)) [
      | inl full ↦ rw full (
          stop (suc left) i p _ v refl
            (refl, omega arith, (is_full_iff v).0 full, ground arith, refl))
      | inr room ↦ rw room (elim (Option-cases (copyin (u64 (addr + i)))) [
        | inl fault ↦ rw fault (stop (suc left) i p _ v refl (refl, inr fault, refl))
        | inr (ch, e) ↦
            let below : count p < pipe_size = (is_full_iff v).1 room in
            rw e (
              advance left i ch p _ v below e
                (write_loop-Wrote left (i + 1) (put p ch) (put-IsValid ch v below)))
      ])
    ])
  ]
