-- ===== src/Pipe.antt =====
-- kernel/pipe.c: a pipe as a record, and the loops of pipewrite and piperead between two sleeps.
-- pi->lock is held from one sleep to the next, so a stretch between sleeps is one function call;
-- Pipe/System.antt interleaves such stretches.
pub mod Fifo
pub mod Write
pub mod Read
mod Stuck
pub mod Order
pub mod System
mod Tests
use os.Prelude.{
  ℕ, zero, suc, ◌+◌, ◌%◌, ◌^◌, Bool, true, false, not, ◌&&◌, ◌||◌, Option, none, some, List, [],
  ◌∷◌, ◌==◌, if◌then◌else◌, update, u32, u64,
}

abbrev pub pipe_size : ℕ
pipe_size = 512

-- `struct pipe` without its lock; a byte of the ring is read at an index below `pipe_size`
pub record Pipe : Type 0 where
  pub bytes : ℕ → ℕ
  pub nread : ℕ
  pub nwrite : ℕ
  pub readopen : Bool
  pub writeopen : Bool

-- the channels on which the pipe's users sleep: &pi->nread and &pi->nwrite
pub data Chan : Type 0 where
  nread_chan nwrite_chan : Chan

-- How a stretch ends: the call returns a count or -1, or sleeps, here at its loop's index.
pub data Exit : Type 0 where
  returned : ℕ → Exit
  failed : Exit
  asleep : ℕ → Exit

-- What a stretch leaves: its end, the pipe, and the channels on which it called wakeup().
pub record Stretch : Type 0 where
  pub exit : Exit
  pub pipe : Pipe
  pub wakes : List Chan

-- the fields that pipealloc() sets on the page from kalloc(); `junk` is what the page held
unfoldable pub fresh : (ℕ → ℕ) → Pipe
fresh junk = record { bytes = junk; nread = 0; nwrite = 0; readopen = true; writeopen = true }

-- pi->nwrite == pi->nread + PIPESIZE
unfoldable pub is_full : Pipe → Bool
is_full p = p.nwrite == u32 (p.nread + pipe_size)

-- pi->nread == pi->nwrite
unfoldable pub is_empty : Pipe → Bool
is_empty p = p.nread == p.nwrite

-- pi->data[pi->nwrite++ % PIPESIZE] = ch
unfoldable pub put : Pipe → ℕ → Pipe
put p ch = record p {
  bytes = update p.bytes (p.nwrite % pipe_size) ch;
  nwrite = u32 (p.nwrite + 1);
}

-- ch = pi->data[pi->nread++ % PIPESIZE]
unfoldable pub get : Pipe → ℕ × Pipe
get p = (p.bytes (p.nread % pipe_size), record p { nread = u32 (p.nread + 1) })

-- The loop of pipewrite from index `i` with `left` bytes to go, up to its return or its next
-- sleep. `copyin a` is the user's byte at address `a`, `none` for a fault; `killed i` is what
-- killed(pr) answers in round `i`.
unfoldable pub write_loop : (ℕ → Option ℕ) → (ℕ → Bool) → ℕ → ℕ → ℕ → Pipe → Stretch
write_loop copyin killed addr zero i p = record {
  exit = returned i;
  pipe = p;
  wakes = nread_chan ∷ [];
}
write_loop copyin killed addr (suc left) i p =
    let next = λ (ch : ℕ). write_loop copyin killed addr left (i + 1) (put p ch) in
    if not p.readopen || killed i
    then record { exit = failed; pipe = p; wakes = [] }
    else if is_full p
    then record { exit = asleep i; pipe = p; wakes = nread_chan ∷ [] }
    else elim (copyin (u64 (addr + i))) [
      | none ↦ record { exit = returned i; pipe = p; wakes = nread_chan ∷ [] }
      | some ch ↦ next ch
    ]

-- piperead's copying loop. `copyout a ch` says whether the byte could be stored at `a`; the list
-- is what was stored. A byte is taken from the ring before it is stored.
unfoldable pub read_loop : (ℕ → ℕ → Bool) → ℕ → ℕ → ℕ → Pipe → ℕ × List ℕ × Pipe
read_loop copyout addr zero i p = (i, [], p)
read_loop copyout addr (suc left) i p =
    let (ch, p') = get p in
    let (n, out, q) = read_loop copyout addr left (i + 1) p' in
    if is_empty p
    then (i, [], p)
    else if copyout (u64 (addr + i)) ch
    then (n, ch ∷ out, q)
    else (i, [], p')

-- piperead from its entry or from its wake-up, up to its return or its next sleep
unfoldable pub read_stretch : (ℕ → ℕ → Bool) → Bool → ℕ → ℕ → Pipe → Stretch × List ℕ
read_stretch copyout killed addr n p =
    let (i, out, q) = read_loop copyout addr n 0 p in
    if is_empty p && p.writeopen
    then (record { exit = if killed then failed else asleep 0; pipe = p; wakes = [] }, [])
    else (record { exit = returned i; pipe = q; wakes = nwrite_chan ∷ [] }, out)

-- pipeclose up to the release of the lock; the flag says whether the page goes back to kfree()
unfoldable pub close : Pipe → Bool → Pipe × List Chan × Bool
close p writable =
    let q = if writable then record p { writeopen = false } else record p { readopen = false } in
    (q, (if writable then nread_chan else nwrite_chan) ∷ [], not q.readopen && not q.writeopen)
