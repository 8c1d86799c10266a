-- ===== src/Pipe/System/Sleepers.antt =====
-- Who can be asleep on a pipe.
use os.Prelude.{
  ℕ, ◌+◌, ◌-◌, ◌≡◌, ◌≢◌, Bool, true, false, Option, List, [], ◌∷◌, arith, update, length,
}
use os.Pipe.{pipe_size, Exit, returned, failed, asleep, Stretch, nread_chan, write_loop, close}
use os.Pipe.Fifo.{IsValid, count, fresh-IsValid}
use os.Pipe.Write.{Ended, Wrote, write_loop-Wrote}
use os.Pipe.Read.{Read, read_stretch-Read, slept, gave_up, copied}
use os.Pipe.System.{
  Thread, outside, write_ready, write_asleep, read_ready, read_asleep, System, wake_all, rouse,
  after_write, after_read, settle, closed, Step, call_write, call_read, run_write, run_read,
  close_end, kill, Reach, start, later,
}
use os.Pipe.System.Wake.{wake_nread, wake_nwrite, rouse_lem}
use os.Pipe.Stuck.{write_loop-full}

-- A thread sleeps in pipewrite only on a full pipe that can be read, and while none sleeps in
-- piperead.
pub record Inv (s : System) : Type 0 where
  pub valid : IsValid s.pipe
  pub writers :
      (t addr n i : ℕ)
      → s.threads t ≡ write_asleep addr n i
      → (count s.pipe ≡ pipe_size) × (s.pipe.readopen ≡ true)
  pub alone :
      (t addr n i u b k : ℕ) → s.threads t ≡ write_asleep addr n i → s.threads u ≢ read_asleep b k

-- The exit of a stretch of pipewrite decides who may sleep after it.
module _ {s : System} (inv : Inv s) (t addr n : ℕ) (r : Stretch) (valid : IsValid r.pipe)
    (kept_full : count s.pipe ≡ pipe_size → r.pipe ≡ s.pipe) where
  -- r woke the readers
  settle_woken :
      (x : Thread)
      → r.wakes ≡ nread_chan ∷ []
      → ((a m : ℕ) → x ≢ read_asleep a m)
      → ((a m i : ℕ)
          → x ≡ write_asleep a m i
          → (count r.pipe ≡ pipe_size) × (r.pipe.readopen ≡ true))
      → Inv (settle s t x r)
  unfolding settle wake_all
  settle_woken x w not_reader full = record {
    valid = valid;
    writers = λ j a m i e.
        ground (arith, wake_nread (s.threads j) a m i, inv.writers j a m i, full a m i, kept_full);
    alone = λ j a m i u b k e f. ground (arith, wake_nread (s.threads u) b k 0, not_reader b k);
  }

  -- r woke nobody
  settle_failed : r.wakes ≡ [] → Inv (settle s t outside r)
  unfolding settle wake_all
  settle_failed w = record {
    valid = valid;
    writers = λ j a m i e. ground (arith, inv.writers j a m i, kept_full);
    alone = λ j a m i u b k e f. ground (arith, inv.alone j a m i u b k);
  }

  settle_write :
      (copyin : ℕ → Option ℕ) (killed : ℕ → Bool) (x : Exit) (j last : ℕ)
      → Ended copyin killed addr x j last r
      → Inv (settle s t (after_write addr n x) r)
  unfolding after_write
  settle_write copyin killed (returned k) j last d =
      settle_woken outside d.2 (λ a m e. cc) (λ a m i e. cc)
  settle_write copyin killed failed j last d = settle_failed d.1
  settle_write copyin killed (asleep k) j last d =
      settle_woken (write_asleep addr n k) d.4 (λ a m e. cc) (λ a m i e. (d.2, d.3))

run_write-Inv :
    {s : System} (inv : Inv s) (t addr n i : ℕ) (copyin : ℕ → Option ℕ) (killed : ℕ → Bool)
    → let r = write_loop copyin killed addr (n - i) i s.pipe in
      Inv (settle s t (after_write addr n r.exit) r)
run_write-Inv {s} inv t addr n i copyin killed =
    settle_write inv t addr n r w.valid (write_loop-full copyin killed addr (n - i) i inv.valid)
      copyin killed r.exit (i + length w.written) (i + (n - i)) w.ended
  where
    r : Stretch
    r = write_loop copyin killed addr (n - i) i s.pipe

    w : Wrote copyin killed addr (n - i) i s.pipe r
    w = write_loop-Wrote copyin killed addr (n - i) i s.pipe inv.valid

settle-Read :
    {s : System} (inv : Inv s) (t addr n : ℕ) (copyout : ℕ → ℕ → Bool) (killed : Bool)
    {r : Stretch × List ℕ}
    → Read copyout addr killed n s.pipe r
    → Inv (settle s t (after_read addr n r.0.exit) r.0)
unfolding settle wake_all after_read
settle-Read {s} inv t addr n copyout killed (slept none_left w k) = record {
  valid = inv.valid;
  writers = λ j a m i e. ground (arith, inv.writers j a m i);
  alone = λ j a m i u b k e f. ground (arith, inv.writers j a m i);
}
settle-Read {s} inv t addr n copyout killed (gave_up none_left w k) = record {
  valid = inv.valid;
  writers = λ j a m i e. ground (arith, inv.writers j a m i);
  alone = λ j a m i u b k e f. ground (arith, inv.writers j a m i);
}
settle-Read {s} inv t addr n copyout killed (copied k out q go took) = record {
  valid = took.valid;
  writers = λ j a m i e. ground (arith, wake_nwrite (s.threads j) a m i);
  alone = λ j a m i u b k e f. ground (arith, wake_nwrite (s.threads j) a m i);
}

closed-Inv : {s : System} → Inv s → (writable : Bool) → Inv (closed s writable)
unfolding closed close wake_all
closed-Inv {s} inv true = record {
  valid = record {
    nread_word = inv.valid.nread_word;
    nwrite_word = inv.valid.nwrite_word;
    fits = inv.valid.fits;
  };
  writers = λ j a m i e. inv.writers j a m i ((wake_nread (s.threads j) a m i).1 e);
  alone = λ j a m i u b k e. (wake_nread (s.threads u) b k 0).0;
}
closed-Inv {s} inv false = record {
  valid = record {
    nread_word = inv.valid.nread_word;
    nwrite_word = inv.valid.nwrite_word;
    fits = inv.valid.fits;
  };
  writers = λ j a m i e. absurd ((wake_nwrite (s.threads j) a m i).0 e);
  alone = λ j a m i u b k e. absurd ((wake_nwrite (s.threads j) a m i).0 e);
}

-- A change of one thread to a state in which it does not sleep.
update-Inv :
    {s : System}
    → Inv s
    → (t : ℕ) (x : Thread) → ((a m i : ℕ) → (x ≢ write_asleep a m i) × (x ≢ read_asleep a m))
    → Inv (record s { threads = update s.threads t x })
update-Inv {s} inv t x up = record {
  valid = record {
    nread_word = inv.valid.nread_word;
    nwrite_word = inv.valid.nwrite_word;
    fits = inv.valid.fits;
  };
  writers = λ j a m i e. ground (arith, inv.writers j a m i, up a m i);
  alone = λ j a m i u b k e f. ground (arith, inv.alone j a m i u b k, up a m i, up b k 0);
}

-- Every step keeps the invariant.
pub Step-Inv : {s u : System} → Step s u → Inv s → Inv u
Step-Inv (call_write s t addr n e) inv =
    update-Inv inv t (write_ready addr n 0) (λ a m i. (λ p. cc, λ p. cc))
Step-Inv (call_read s t addr n e) inv =
    update-Inv inv t (read_ready addr n) (λ a m i. (λ p. cc, λ p. cc))
Step-Inv (run_write s t addr n i copyin killed e) inv = run_write-Inv inv t addr n i copyin killed
Step-Inv (run_read s t addr n copyout killed e) inv =
    settle-Read inv t addr n copyout killed
      (read_stretch-Read copyout addr killed n s.pipe inv.valid)
Step-Inv (close_end s writable) inv = closed-Inv inv writable
Step-Inv (kill s t) inv = update-Inv inv t (rouse (s.threads t)) (rouse_lem (s.threads t))

pub Reach-Inv : (junk : ℕ → ℕ) {s : System} → Reach junk s → Inv s
Reach-Inv junk start = record {
  valid = (fresh-IsValid junk).0;
  writers = λ t a n i e. cc;
  alone = λ t a n i u b k e. cc;
}
Reach-Inv junk (later r st) = Step-Inv st (Reach-Inv junk r)

-- In every reachable state of a pipe and any number of threads, no thread sleeps in pipewrite
-- while another sleeps in piperead, and a sleeping writer faces a full pipe with an open read end.
-- A thread may be killed at any moment, also between two bytes of a pipewrite.
pub no_deadlock :
    (junk : ℕ → ℕ) {s : System}
    → Reach junk s
    → (t u a m i b k : ℕ) → s.threads t ≡ write_asleep a m i
    → (s.threads u ≢ read_asleep b k) × (count s.pipe ≡ pipe_size) × (s.pipe.readopen ≡ true)
no_deadlock junk {s} reach t u a m i b k e =
    let inv : Inv s = Reach-Inv junk reach in
    let full = inv.writers t a m i e in (inv.alone t a m i u b k e, full.0, full.1)
