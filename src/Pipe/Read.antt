-- ===== src/Pipe/Read.antt =====
-- One stretch of piperead against the queue of the pipe.
use mathlib.Core.Path.{subst₂}
use os.Prelude.{
  ℕ, zero, suc, ◌+◌, ◌<◌, ◌≡◌, ◌⊎◌, inl, inr, refl, Bool, true, false, ◌&&◌, List, [], ◌∷◌, ◌++◌,
  arith, u64, length, if◌then◌else◌, Bool-cases,
}
use os.Pipe.{
  Pipe, Stretch, returned, failed, asleep, nwrite_chan, is_empty, get, read_loop, read_stretch,
}
use os.Pipe.Fifo.{IsValid, count, contents, is_empty_iff, get-IsValid, contents-get}

module _ (copyout : ℕ → ℕ → Bool) (addr : ℕ) where
  -- the bytes `out` were stored from `addr + i` on
  abbrev pub Stored : ℕ → List ℕ → Type 0
  Stored i [] = Unit
  Stored i (b ∷ out) = (copyout (u64 (addr + i)) b ≡ true) × Stored (i + 1) out

  -- Why the loop stopped after `j` rounds of `last`, and the byte that it took without storing it.
  pub data Stopped (j last : ℕ) (q : Pipe) : List ℕ → Type 0 where
    finished : j ≡ last → Stopped j last q []
    drained : j < last → count q ≡ 0 → Stopped j last q []
    dropped : (b : ℕ) → j < last → copyout (u64 (addr + j)) b ≡ false → Stopped j last q (b ∷ [])

  pub record Took (left i : ℕ) (p : Pipe) (r : ℕ × List ℕ × Pipe) : Type 0 where
    pub valid : IsValid r.2
    pub counted : r.0 ≡ i + length r.1
    pub stored : Stored i r.1
    pub lost : List ℕ
    pub in_order : contents p ≡ r.1 ++ (lost ++ contents r.2)
    pub stopped : Stopped r.0 (i + left) r.2 lost
    pub ends_kept : (r.2.readopen ≡ p.readopen) × (r.2.writeopen ≡ p.writeopen)

  advance :
      (left i : ℕ) (p : Pipe) (n : ℕ) (out : List ℕ) (q : Pipe)
      → IsValid p
      → 0 < count p
      → copyout (u64 (addr + i)) (get p).0 ≡ true
      → Took left (i + 1) (get p).1 (n, out, q)
      → Took (suc left) i p (n, (get p).0 ∷ out, q)
  advance left i p n out q v some_left e t = record {
    valid = t.valid;
    counted = omega (arith, t.counted);
    stored = (e, t.stored);
    lost = t.lost;
    in_order = rw (contents-get v some_left, t.in_order);
    stopped = subst₂ (λ j last. Stopped j last q t.lost) refl (omega arith) t.stopped;
    ends_kept = unfold get in t.ends_kept;
  }

  pub read_loop-Took :
      (left i : ℕ) (p : Pipe) → IsValid p → Took left i p (read_loop copyout addr left i p)
  unfolding read_loop
  read_loop-Took zero i p v = record {
    valid = v;
    counted = omega arith;
    stored = tt;
    lost = [];
    in_order = refl;
    stopped = finished (omega arith);
    ends_kept = (refl, refl);
  }
  read_loop-Took (suc left) i p v = elim (Bool-cases (is_empty p)) [
    | inl empty ↦ rw empty (record {
      valid = v;
      counted = omega arith;
      stored = tt;
      lost = [];
      in_order = refl;
      stopped = drained (omega arith) ((is_empty_iff v).0 empty);
      ends_kept = (refl, refl);
    })
    | inr more ↦ rw more (elim (Bool-cases (copyout (u64 (addr + i)) (get p).0)) [
      | inl e ↦ rw e (
          advance left i p _ _ _ v ((is_empty_iff v).1 more) e
            (read_loop-Took left (i + 1) (get p).1 (get-IsValid v ((is_empty_iff v).1 more))))
      | inr fault ↦ rw fault (record {
        valid = get-IsValid v ((is_empty_iff v).1 more);
        counted = omega arith;
        stored = tt;
        lost = (get p).0 ∷ [];
        in_order = contents-get v ((is_empty_iff v).1 more);
        stopped = dropped (get p).0 (omega arith) fault;
        ends_kept = unfold get in (refl, refl);
      })
    ])
  ]

  -- What a stretch of piperead for `n` bytes does, by how it ends.
  pub data Read (killed : Bool) (n : ℕ) (p : Pipe) : Stretch × List ℕ → Type 0 where
    slept :
        count p ≡ 0
        → p.writeopen ≡ true
        → killed ≡ false
        → Read killed n p (record { exit = asleep 0; pipe = p; wakes = [] }, [])
    gave_up :
        count p ≡ 0
        → p.writeopen ≡ true
        → killed ≡ true
        → Read killed n p (record { exit = failed; pipe = p; wakes = [] }, [])
    copied :
        (k : ℕ) (out : List ℕ) (q : Pipe)
        → (0 < count p) ⊎ (p.writeopen ≡ false)
        → Took n 0 p (k, out, q)
        → Read killed n p (record { exit = returned k; pipe = q; wakes = nwrite_chan ∷ [] }, out)

  waiting :
      (killed : Bool) (n : ℕ) (p : Pipe)
      → count p ≡ 0
      → p.writeopen ≡ true
      → Read killed n p
          (record { exit = if killed then failed else asleep 0; pipe = p; wakes = [] }, [])
  waiting true n p e w = gave_up e w refl
  waiting false n p e w = slept e w refl

  -- From a valid pipe a stretch of piperead sleeps, or fails if the process is killed, only on an
  -- empty pipe with an open write end, and then changes nothing; otherwise it returns the number
  -- of bytes stored, which are the oldest of the queue in order.
  pub read_stretch-Read :
      (killed : Bool) (n : ℕ) (p : Pipe)
      → IsValid p
      → Read killed n p (read_stretch copyout killed addr n p)
  unfolding read_stretch
  read_stretch-Read killed n p v = elim (Bool-cases (is_empty p && p.writeopen)) [
    | inl wait ↦ rw wait (waiting killed n p (ground (arith, is_empty_iff v)) (ground arith))
    | inr go ↦ rw go (copied _ _ _ (ground (arith, is_empty_iff v)) (read_loop-Took n 0 p v))
  ]
