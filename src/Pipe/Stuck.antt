-- ===== src/Pipe/Stuck.antt =====
-- When pipewrite leaves the pipe as it was.
use os.Prelude.{ℕ, zero, suc, ◌≡◌, refl, Bool, Option, inl, inr, arith, Bool-cases}
use os.Pipe.{Pipe, pipe_size, is_full, write_loop}
use os.Pipe.Fifo.{IsValid, count, is_full_iff}

-- A full pipe is left as it is by a stretch of pipewrite.
pub write_loop-full :
    (copyin : ℕ → Option ℕ) (killed : ℕ → Bool) (addr left i : ℕ) {p : Pipe}
    → IsValid p
    → count p ≡ pipe_size
    → (write_loop copyin killed addr left i p).pipe ≡ p
unfolding write_loop
write_loop-full copyin killed addr zero i v full = refl
write_loop-full copyin killed addr (suc left) i {p} v full = elim (Bool-cases (is_full p)) [
  | inl e ↦ rw e (ground arith)
  | inr e ↦ absurd (omega (arith, (is_full_iff v).1 e))
]
