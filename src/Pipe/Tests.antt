-- ===== src/Pipe/Tests.antt =====
-- The pipe's theorems at concrete inputs.
use os.Prelude.{
  ℕ, ◌+◌, ◌-◌, ◌^◌, ◌≡◌, ◌≢◌, refl, true, false, some, List, [], ◌∷◌, ◌++◌, arith, ◌==◌, leb,
  length, update,
}
use os.Pipe.{Pipe, pipe_size, Stretch, fresh, put, is_full, write_loop, read_loop, returned, failed}
use os.Pipe.Fifo.{IsValid, count, contents, contents-put}
use os.Pipe.Write.{Fetched, Ended}
use os.Pipe.Read.{Stored, Stopped}
use os.Pipe.Order.{write_then_read, kill_after_byte}
use os.Pipe.System.{
  System, outside, read_asleep, Reach, start, later, call_write, run_write, settle, after_write,
  write_ready,
}
use os.Pipe.System.Sleepers.{no_deadlock}

-- counters about to wrap, two bytes inside
abbrev wrapping : Pipe
wrapping = record {
  bytes = update (update (λ _. 0) 510 7) 511 8;
  nread = 2 ^ 32 - 2;
  nwrite = 0;
  readopen = true;
  writeopen = true;
}

wrapping-IsValid : IsValid wrapping
wrapping-IsValid = omega arith

contents-wrapping : contents wrapping ≡ 7 ∷ 8 ∷ []
contents-wrapping = refl

contents-put_example : contents (put wrapping 9) ≡ contents wrapping ++ (9 ∷ [])
contents-put_example = contents-put 9 wrapping-IsValid (omega arith)

write_run : (write_loop (λ a. some a) (λ _. false) 100 3 0 wrapping).exit ≡ returned 3
unfolding write_loop put is_full
write_run = refl

abbrev called : System
called = record { pipe = fresh (λ _. 0); threads = update (λ _. outside) 0 (write_ready 0 600 0) }

abbrev filled : Stretch
filled = write_loop (λ a. some a) (λ _. false) 0 600 0 (fresh (λ _. 0))

abbrev blocked : System
blocked = settle called 0 (after_write 0 600 filled.exit) filled

blocked-Reach : Reach (λ _. 0) blocked
blocked-Reach =
    later (later start (call_write _ 0 0 600 refl))
      (run_write called 0 0 600 0 (λ a. some a) (λ _. false) refl)

no_deadlock_example :
    (blocked.threads 1 ≢ read_asleep 0 1)
    × (count blocked.pipe ≡ pipe_size)
    × (blocked.pipe.readopen ≡ true)
unfolding write_loop put settle after_write is_full fresh
no_deadlock_example = no_deadlock (λ _. 0) blocked-Reach 0 1 0 600 512 0 1 refl

-- three bytes are written, and then at most two can be stored
abbrev three_bytes : Stretch
three_bytes = write_loop (λ a. some a) (λ _. false) 100 3 0 wrapping

abbrev two_stored : ℕ × List ℕ × Pipe
two_stored = read_loop (λ a b. leb a 41) 40 9 0 three_bytes.pipe

write_then_read_example :
    (ws : List ℕ) × (lost : List ℕ) × Fetched (λ a. some a) 100 0 ws
    × Ended (λ a. some a) (λ _. false) 100 three_bytes.exit (0 + length ws) (0 + 3) three_bytes
    × (contents wrapping ++ ws ≡ two_stored.1 ++ (lost ++ contents two_stored.2))
    × Stored (λ a b. leb a 41) 40 0 two_stored.1
    × (two_stored.0 ≡ length two_stored.1)
    × Stopped (λ a b. leb a 41) 40 two_stored.0 9 two_stored.2 lost
write_then_read_example =
    write_then_read (λ a. some a) (λ _. false) (λ a b. leb a 41) 100 40 3 0 9 wrapping
      wrapping-IsValid

kill_after_byte_example :
    let s = write_loop (λ a. some a) (λ i. i == 1) 100 3 0 wrapping in
    (s.exit ≡ failed) × (s.wakes ≡ []) × (contents s.pipe ≡ contents wrapping ++ (100 ∷ []))
kill_after_byte_example =
    kill_after_byte (λ a. some a) (λ i. i == 1) 100 1 0 100 wrapping wrapping-IsValid refl
      (omega arith) refl refl refl
