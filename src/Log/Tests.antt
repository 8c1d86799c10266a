-- ===== src/Log/Tests.antt =====
-- The log's theorems at concrete inputs: a log at blocks 2 to 32 of device 1.
use os.Prelude.{
  ℕ, ◌<◌, ◌≡◌, ◌↔◌, ◌⊎◌, inl, inr, refl, Bool, true, false, List, [], ◌∷◌, arith, ◌==◌, update,
  Bool-cases, ==_iff,
}
use mathlib.Core.Path.{subst}
use os.Kernel.{Block, Disk, Result, ok, panic, sleeps, crashed}
use os.Kernel.Runs.{Runs}
use os.Bio.{
  Buf, Bcache, set_buf, binit, indices, is_block, find_block, find_unused, lock_buf, bget,
  read_if_stale, bread, bwrite, disk_read, disk_write, disk_write_at, without, brelse, bunpin,
}
use os.Bio.Hold.{set_bytes}
use os.Bio.Find.{mem}
use os.Bio.Cache.{view}
use os.Bio.Spec.{Is}
use os.Log.Two.{no_lock}
use os.Log.{
  Log, word, set_word, rounds, put_blocks, header_bytes, get_blocks, read_header, copy_buf,
  read_head, write_head, install_one, install_loop, install_trans, write_log_one, write_log_loop,
  write_log, commit_all, commit, recover_from_log, initlog,
}
use os.Bio.Give.{Given, bread-Given}
use os.Log.Header.{read_header-header_bytes}
use os.Log.Ops.{begin_op, log_write, end_op_leave}
use os.Log.Ops.Absorb.{Listed}
use os.Log.Ops.System.{Reach, boots, then_step, begins, Inv}
use os.Log.Ops.Reserve.{reservation, log_write-in_op, end_op_leave-in_op}
use os.Log.Returns.{commit-returns, initlog-returns}
use os.Log.Area.{Stands, Stands-empty}
use os.Log.Ready.{Ready, Done}
use os.Log.Commit.{commit-Runs}
use os.Log.Recover.{Recovered, initlog-Runs}
use os.Log.Crash.{up, commit-crash-atomic}

abbrev blank : Buf
blank = record { valid = false; dev = 0; blockno = 0; locked = false; refcnt = 0; bytes = λ _. 0 }

abbrev zeros : Disk
zeros _ _ = 0

-- block 100 is filled with sevens in the cache, pinned, and not on the disk
abbrev dirty : ℕ → Bcache
dirty power = record {
  buf =
      update (λ _. blank) 0
        (record {
          valid = true;
          dev = 1;
          blockno = 100;
          locked = false;
          refcnt = 1;
          bytes = λ _. 7;
        });
  order = 0 ∷ 1 ∷ 2 ∷ [];
  disk = zeros;
  power = power;
}

abbrev one_block : Log
one_block = record {
  start = 2;
  outstanding = 0;
  committing = true;
  dev = 1;
  n = 1;
  block = λ _. 100;
}

abbrev sevens : ℕ → Block
sevens = update zeros 100 (λ _. 7)

dirty-Is :
    (p : ℕ)
    → Is 1 sevens zeros (update (λ _. 0) 0 1) no_lock (λ i. mem i (0 ∷ 1 ∷ 2 ∷ [])) p (dirty p)
unfolding view is_block find_block mem
dirty-Is p = record {
  inv = record {
    unique = λ dev b i j nz a c. ground (arith, a.key, c.key, nz);
    clean = λ i m z v. absurd (ground (arith, z, v));
  };
  reads = λ c. elim (Bool-cases (100 == c)) [
    | inl e ↦ subst (λ b. view (dirty p) 1 b ≡ sevens b) ((==_iff 100 c).0 e) refl
    | inr e ↦ let ne : (c == 100) ≡ false = ground arith in rw (e, ne) refl
  ];
  disk = λ c. refl;
  refs = λ i. ground arith;
  locks = λ i. ground arith;
  members = λ i. refl;
  power = refl;
  held_valid = λ i e. cc e;
  device = λ i m v. ground (arith, v);
}

one_block-Ready : (p : ℕ) → Ready one_block sevens zeros (dirty p)
unfolding is_block mem word
one_block-Ready p = record {
  refs = update (λ _. 0) 0 1;
  members = λ i. mem i (0 ∷ 1 ∷ 2 ∷ []);
  state = dirty-Is p;
  low = λ i. ground arith;
  room = (1, refl, refl);
  device = λ e. absurd (omega (arith, e));
  few = omega arith;
  pins = λ k lt. (0, record { listed = refl; key = refl }, refl);
  home = λ k lt h. omega (arith, h);
  distinct = λ j k lt small. absurd (omega arith);
  words = λ k lt. omega arith;
  empty = refl;
  logged = λ c out free. ground (arith, free 0 (omega arith));
}

commit-Runs_example :
    Runs
      (λ log' t. Done one_block sevens log' t)
      (λ d. Stands 2 d zeros ⊎ Stands 2 d sevens)
      (commit one_block (dirty 10))
commit-Runs_example = commit-Runs one_block (one_block-Ready 10)

abbrev disk_of : {A : Type 0} → Result (A × Bcache) → Disk
disk_of (ok (a, s)) = s.disk
disk_of (panic m) = zeros
disk_of sleeps = zeros
disk_of (crashed d) = d

abbrev log_of : Result (Log × Bcache) → Log
log_of (ok (log, s)) = log
log_of (panic m) = one_block
log_of sleeps = one_block
log_of (crashed d) = one_block

abbrev state_of : Result (Log × Bcache) → Bcache
state_of (ok (log, s)) = s
state_of (panic m) = dirty 0
state_of sleeps = dirty 0
state_of (crashed d) = dirty 0

abbrev zero_log : Log
zero_log = record { start = 0; outstanding = 0; committing = false; dev = 0; n = 0; block = λ _. 0 }

-- the power fails at the third write: the header is on the disk, the block is not
abbrev lost : Disk
lost = disk_of (commit one_block (dirty 2))

abbrev boot : Result (Log × Bcache)
boot = initlog 1 2 zero_log (binit lost 9)

lost-crashed : commit one_block (dirty 2) ≡ crashed lost
unfolding word set_word rounds put_blocks header_bytes copy_buf write_head install_one install_loop
    install_trans write_log_one write_log_loop write_log commit_all commit set_buf is_block
    find_block find_unused lock_buf bget read_if_stale bread bwrite disk_read disk_write
    disk_write_at without brelse bunpin set_bytes
lost-crashed = refl

lost-boots : boot ≡ ok (log_of boot, state_of boot)
unfolding word set_word rounds put_blocks header_bytes get_blocks read_header copy_buf read_head
    write_head install_one install_loop install_trans recover_from_log initlog binit indices set_buf
    is_block find_block find_unused lock_buf bget read_if_stale bread bwrite disk_read disk_write
    disk_write_at without brelse set_bytes write_log_one write_log_loop write_log commit_all commit
    bunpin
lost-boots = refl

commit-crash-atomic_example :
    Recovered (record zero_log { start = 2; dev = 1 }) zeros (log_of boot) (state_of boot)
    ⊎ Recovered (record zero_log { start = 2; dev = 1 }) sevens (log_of boot) (state_of boot)
commit-crash-atomic_example =
    commit-crash-atomic one_block zero_log (one_block-Ready 2) lost-crashed (up 9 lost-boots)

initlog-Runs_example :
    Runs
      (λ log' u. Recovered (record zero_log { start = 2; dev = 1 }) zeros log' u)
      (λ d'. Stands 2 d' zeros)
      (initlog 1 2 zero_log (binit zeros 1))
unfolding word
initlog-Runs_example =
    initlog-Runs 1 2 zero_log zeros 1 (λ e. absurd (omega (arith, e)))
      (Stands-empty refl (λ c out. refl))

read_header-header_bytes_example :
    let got = read_header zero_log (header_bytes one_block (λ _. 255)) in
    (got.n ≡ 1) × ((t : ℕ) → t < 1 → got.block t ≡ 100)
read_header-header_bytes_example =
    read_header-header_bytes one_block zero_log (λ _. 255) (omega arith) (λ t lt. omega arith)

bread-Given_example :
    Runs
      (λ i t.
        Given 1 100 sevens zeros
          (update (λ _. 0) 0 1)
          no_lock
          (λ i. mem i (0 ∷ 1 ∷ 2 ∷ []))
          10
          (dirty 10)
          i
          t)
      (λ _. ⊥)
      (bread 1 100 (dirty 10))
unfolding mem
bread-Given_example =
    bread-Given 1 (λ e. absurd (omega (arith, e))) (dirty-Is 10) 100 (λ i a. (refl, ground arith))
      (λ i z. refl) (1, refl, inl refl)

-- the first operation begins after the boot
abbrev begun : Log
begun = record zero_log { outstanding = 1 }

begun-Reach : Reach (record { log = begun; ops = 10 ∷ [] })
unfolding begin_op rounds
begun-Reach = then_step (boots {log = zero_log} refl refl refl) (begins refl)

reservation_example : Inv (record { log = begun; ops = 10 ∷ [] })
reservation_example = reservation (record { log = begun; ops = 10 ∷ [] }) begun-Reach

log_write-in_op_example :
    Runs
      (λ log' t.
        Listed begun 0 (dirty 10) log' t × (log'.outstanding ≡ 1) × (log'.committing ≡ false))
      (λ d. ⊥)
      (log_write begun 0 (dirty 10))
log_write-in_op_example = log_write-in_op begun [] [] 10 0 (dirty 10) begun-Reach (omega arith)

end_op_leave-in_op_example :
    let others : List ℕ = [] in
    (log' : Log) × (do_commit : Bool) × (end_op_leave begun ≡ ok (log', do_commit))
    × ((do_commit ≡ true) ↔ (others ≡ []))
end_op_leave-in_op_example = end_op_leave-in_op begun [] [] 10 begun-Reach

commit-returns_example :
    (log' : Log) × (t : Bcache) × (commit one_block (dirty 4) ≡ ok (log', t))
    × Done one_block sevens log' t
commit-returns_example = commit-returns one_block (one_block-Ready 4) (omega arith)

initlog-returns_example :
    (log' : Log) × (t : Bcache) × (initlog 1 2 zero_log (binit zeros 31) ≡ ok (log', t))
    × Recovered (record zero_log { start = 2; dev = 1 }) zeros log' t
unfolding word
initlog-returns_example =
    initlog-returns 1 2 zero_log zeros 31 (λ e. absurd (omega (arith, e)))
      (Stands-empty refl (λ c out. refl)) (omega arith)
