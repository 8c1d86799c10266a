-- ===== src/Pipe/Order.antt =====
-- A write and a read after it; and the end that pipewrite takes when a kill comes in its middle.
use os.Prelude.{
  ℕ, suc, ◌+◌, ◌<◌, ◌≡◌, ◌∙◌, sym, refl, inl, inr, Bool-cases, Bool, true, false, Option, some,
  List, [], ◌∷◌, ◌++◌, arith, u64, length,
}
use os.Pipe.{Pipe, pipe_size, failed, is_full, put, write_loop, read_loop}
use os.Pipe.Fifo.{IsValid, count, contents, is_full_iff, contents-put}
use os.Pipe.Write.{write_loop-Wrote, Fetched, Ended}
use native.Mathlib.Nat.{zero-add}
use os.Pipe.Read.{Stored, Stopped, read_loop-Took}
use mathlib.Core.Path.{subst}

write_loop_dead :
    (copyin : ℕ → Option ℕ) (killed : ℕ → Bool) (addr left i : ℕ) (p : Pipe)
    → killed i ≡ true
    → write_loop copyin killed addr (suc left) i p ≡ record { exit = failed; pipe = p; wakes = [] }
unfolding write_loop
write_loop_dead copyin killed addr left i p dead = ground arith

write_loop_step :
    (copyin : ℕ → Option ℕ) (killed : ℕ → Bool) (addr left i ch : ℕ) (p : Pipe)
    → IsValid p
    → p.readopen ≡ true
    → count p < pipe_size
    → killed i ≡ false
    → copyin (u64 (addr + i)) ≡ some ch
    → write_loop copyin killed addr (suc left) i p
      ≡ write_loop copyin killed addr left (i + 1) (put p ch)
unfolding write_loop
write_loop_step copyin killed addr left i ch p v open_end room alive e =
    elim (Bool-cases (is_full p)) [
      | inl full ↦ absurd (omega (arith, (is_full_iff v).0 full))
      | inr more ↦ simp (open_end, alive, more, e)
    ]

-- On a valid pipe, what piperead's loop for `n` bytes stores after a stretch of pipewrite, then the
-- bytes that it took and could not store, then what stays in the pipe, make up the old contents
-- followed by the bytes that pipewrite fetched from user memory. pipewrite has written all that it
-- wanted, or stops as its exit says: at a fault, at a full pipe, or at a closed read end or a kill.
-- piperead stops only with `n` bytes stored, with the pipe empty, or at a byte that could not be
-- stored, and this one byte is all that can be lost.
pub write_then_read :
    (copyin : ℕ → Option ℕ) (killed : ℕ → Bool) (copyout : ℕ → ℕ → Bool) (from to left i n : ℕ)
    (p : Pipe)
    → IsValid p
    → let s = write_loop copyin killed from left i p in
      let r = read_loop copyout to n 0 s.pipe in
      (ws : List ℕ) × (lost : List ℕ) × Fetched copyin from i ws
      × Ended copyin killed from s.exit (i + length ws) (i + left) s
      × (contents p ++ ws ≡ r.1 ++ (lost ++ contents r.2))
      × Stored copyout to 0 r.1
      × (r.0 ≡ length r.1)
      × Stopped copyout to r.0 n r.2 lost
write_then_read copyin killed copyout from to left i n p v =
    let w = write_loop-Wrote copyin killed from left i p v in
    let r = read_loop copyout to n 0 (write_loop copyin killed from left i p).pipe in
    let t = read_loop-Took copyout to n 0 _ w.valid in
    (
      w.written,
      t.lost,
      w.fetched,
      w.ended,
      sym w.appended ∙ t.in_order,
      t.stored,
      t.counted ∙ zero-add _,
      subst (λ m. Stopped copyout to r.0 m r.2 t.lost) (zero-add n) t.stopped,
    )

-- A kill that pipewrite sees after it has put a byte into the pipe makes it fail with that byte
-- written and with no wakeup() of the readers.
pub kill_after_byte :
    (copyin : ℕ → Option ℕ) (killed : ℕ → Bool) (addr left i ch : ℕ) (p : Pipe)
    → IsValid p
    → p.readopen ≡ true
    → count p < pipe_size
    → killed i ≡ false
    → killed (i + 1) ≡ true
    → copyin (u64 (addr + i)) ≡ some ch
    → let s = write_loop copyin killed addr (suc (suc left)) i p in
      (s.exit ≡ failed) × (s.wakes ≡ []) × (contents s.pipe ≡ contents p ++ (ch ∷ []))
kill_after_byte copyin killed addr left i ch p v open_end room alive dead e =
    rw
      (
        write_loop_step copyin killed addr (suc left) i ch p v open_end room alive e,
        write_loop_dead copyin killed addr left (i + 1) (put p ch) dead,
      )
      (refl, refl, contents-put ch v room)
