-- ===== src/Pipe/System.antt =====
-- Threads inside pipewrite and piperead on one pipe. A step is one stretch under pi->lock, a
-- pipeclose, a kill, or a new call; wakeup() makes every thread that sleeps on the channel ready.
mod Wake
pub mod Sleepers
use os.Prelude.{ℕ, ◌+◌, ◌-◌, ◌≡◌, Bool, false, Option, List, [], ◌∷◌, ◌==◌, if◌then◌else◌, update}
use os.Pipe.{
  Pipe, Chan, nread_chan, nwrite_chan, Exit, returned, failed, asleep, Stretch, fresh, write_loop,
  read_stretch, close,
}

-- Where a thread stands: outside, or in a call whose loop is ready to go on or asleep. A writer
-- has its address, its byte count and its index; a reader its address and its byte count.
pub data Thread : Type 0 where
  outside : Thread
  write_ready write_asleep : ℕ → ℕ → ℕ → Thread
  read_ready read_asleep : ℕ → ℕ → Thread

pub record System : Type 0 where
  pub pipe : Pipe
  pub threads : ℕ → Thread

-- a writer sleeps on &pi->nwrite, a reader on &pi->nread
unfoldable pub wake : Chan → Thread → Thread
wake nwrite_chan (write_asleep addr n i) = write_ready addr n i
wake nread_chan (read_asleep addr n) = read_ready addr n
wake c t = t

unfoldable pub wake_all : List Chan → Thread → Thread
wake_all [] t = t
wake_all (c ∷ cs) t = wake_all cs (wake c t)

-- kkill makes a sleeping thread ready, whatever its channel
unfoldable pub rouse : Thread → Thread
rouse (write_asleep addr n i) = write_ready addr n i
rouse (read_asleep addr n) = read_ready addr n
rouse t = t

unfoldable pub after_write : ℕ → ℕ → Exit → Thread
after_write addr n (returned k) = outside
after_write addr n failed = outside
after_write addr n (asleep i) = write_asleep addr n i

unfoldable pub after_read : ℕ → ℕ → Exit → Thread
after_read addr n (returned k) = outside
after_read addr n failed = outside
after_read addr n (asleep i) = read_asleep addr n

-- The wakeup() calls of a stretch come before its own sleep, and on the other channel.
unfoldable pub settle : System → ℕ → Thread → Stretch → System
settle s t thread r = record {
  pipe = r.pipe;
  threads = update (λ j. wake_all r.wakes (s.threads j)) t thread;
}

unfoldable pub closed : System → Bool → System
closed s writable =
    let (q, wakes, free) = close s.pipe writable in
    record { pipe = q; threads = λ j. wake_all wakes (s.threads j) }

-- A writer asks killed() in each round of a stretch, and may be killed between two of them.
pub data Step : System → System → Type 0 where
  call_write :
      (s : System) (t addr n : ℕ)
      → s.threads t ≡ outside
      → Step s (record s { threads = update s.threads t (write_ready addr n 0) })
  call_read :
      (s : System) (t addr n : ℕ)
      → s.threads t ≡ outside
      → Step s (record s { threads = update s.threads t (read_ready addr n) })
  run_write :
      (s : System) (t addr n i : ℕ) (copyin : ℕ → Option ℕ) (killed : ℕ → Bool)
      → s.threads t ≡ write_ready addr n i
      → Step s (
          let r = write_loop copyin killed addr (n - i) i s.pipe in
          settle s t (after_write addr n r.exit) r)
  run_read :
      (s : System) (t addr n : ℕ) (copyout : ℕ → ℕ → Bool) (killed : Bool)
      → s.threads t ≡ read_ready addr n
      → Step s (
          let r = (read_stretch copyout killed addr n s.pipe).0 in
          settle s t (after_read addr n r.exit) r)
  close_end : (s : System) (writable : Bool) → Step s (closed s writable)
  kill :
      (s : System) (t : ℕ)
      → Step s (record s { threads = update s.threads t (rouse (s.threads t)) })

pub data Reach (junk : ℕ → ℕ) : System → Type 0 where
  start : Reach junk (record { pipe = fresh junk; threads = λ _. outside })
  later : {s u : System} → Reach junk s → Step s u → Reach junk u
