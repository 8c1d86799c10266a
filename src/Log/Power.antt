-- ===== src/Log/Power.antt =====
-- The power that the log's procedures need: a bound on the writes of each.
use Prim.Native.String.{String}
use os.Prelude.{
  ℕ, zero, suc, ◌+◌, ◌*◌, ◌<◌, ◌≤◌, ◌≡◌, inl, inr, ◌≢◌, ap, refl, ◌∙◌, Bool, true, false, arith,
  ltb, if◌then◌else◌, Bool-cases, Option-cases,
}
use os.Kernel.{Block, Disk, Result, ok, panic, sleeps, crashed, Prog, and_then, pure}
use os.Kernel.Runs.{Runs, returns, crashes}
use os.Bio.{
  Bcache, find_block, find_unused, lock_buf, bget, read_if_stale, bread, bwrite, disk_read,
  disk_write, disk_write_at, brelse, bunpin, set_buf,
}
use os.Bio.Hold.{set_bytes}
use os.Log.{
  Log, rounds, header_bytes, copy_buf, write_head, read_head, install_one, install_loop,
  install_trans, write_log_one, write_log_loop, write_log, commit_all, commit, log_blocks, word,
  read_header, recover_from_log, initlog,
}
use os.Log.Header.{rounds-eq, read_header-n}
use os.Log.Head.{read_head-Runs}
use os.Log.Recover.{binit-Is}
use os.Bio.Find.{mem-indices}
use os.Bio.{binit}

-- A run from power `p` makes at most `n` writes, and is cut off only with power for fewer.
pub data Uses {A : Type 0} (n p : ℕ) : Result (A × Bcache) → Type 0 where
  ended : {a : A} {t : Bcache} → p ≤ t.power + n → Uses n p (ok (a, t))
  panicked : {m : String} → Uses n p (panic m)
  slept : Uses n p sleeps
  cut : {d : Disk} → p < n → Uses n p (crashed d)

abbrev pub Within : {A : Type 0} → ℕ → Prog Bcache A → Type 0
Within n f = (s : Bcache) → Uses n s.power (f s)

Uses-more :
    {A : Type 0} {k q m p : ℕ} {r : Result (A × Bcache)} → p + k ≤ q + m → Uses k q r → Uses m p r
Uses-more le (ended v) = ended (omega (arith, le))
Uses-more le panicked = panicked
Uses-more le slept = slept
Uses-more le (cut v) = cut (omega (arith, le))

-- a step that makes `n` writes of `m`, and the rest
spend :
    {A B : Type 0} (n k m : ℕ) {p : ℕ} {r : Result (A × Bcache)} {f : A → Prog Bcache B}
    → n + k ≤ m
    → Uses n p r
    → ((a : A) (t : Bcache) → Uses k t.power (f a t))
    → Uses m p (and_then r f)
spend n k m le (ended {a} {t} u) w = Uses-more (omega (arith, u, le)) (w a t)
spend n k m le panicked w = panicked
spend n k m le slept w = slept
spend n k m le (cut u) w = cut (omega (arith, le))

quiet :
    {A B : Type 0} {k p : ℕ} {r : Result (A × Bcache)} {f : A → Prog Bcache B}
    → Uses 0 p r
    → ((a : A) (t : Bcache) → Uses k t.power (f a t))
    → Uses k p (and_then r f)
quiet {k = k} u w = spend 0 k k (omega arith) u w

lock_buf-Within : (i : ℕ) → Within 0 (lock_buf i)
unfolding lock_buf set_buf
lock_buf-Within i s = elim (Bool-cases (s.buf i).locked) [
  | inl e ↦ rw e slept
  | inr e ↦ rw e (ended (omega arith))
]

bget-Within : (dev b : ℕ) → Within 0 (bget dev b)
unfolding bget set_buf
bget-Within dev b s = elim (Option-cases (find_block s.buf dev b s.order)) [
  | inr (i, e) ↦ rw (e, bget) (lock_buf-Within i (set_buf s i _))
  | inl e ↦ elim (Option-cases (find_unused s.buf s.order)) [
    | inr (i, f) ↦ rw (e, f, bget) (lock_buf-Within i (set_buf s i _))
    | inl f ↦ rw (e, f, bget) panicked
  ]
]

read_if_stale-Within : (i : ℕ) → Within 0 (read_if_stale i)
unfolding read_if_stale disk_read set_buf
read_if_stale-Within i s = elim (Bool-cases (s.buf i).valid) [
  | inl e ↦ rw e (ended (omega arith))
  | inr e ↦ rw e (ended (omega arith))
]

bwrite-Within : (i : ℕ) → Within 1 (bwrite i)
unfolding bwrite disk_write
bwrite-Within i s = elim (Bool-cases (s.buf i).locked) [
  | inl e ↦ rw e (go s.power)
  | inr e ↦ rw e panicked
]
  where
    go : (p : ℕ) → Uses 1 p (disk_write_at i s p)
    go zero = cut (omega arith)
    go (suc p) = ended (omega arith)

brelse-Within : (i : ℕ) → Within 0 (brelse i)
unfolding brelse set_buf
brelse-Within i s = elim (Bool-cases (s.buf i).locked) [
  | inl e ↦ rw e (ended (ground arith))
  | inr e ↦ rw e panicked
]

bread-Within : (dev b : ℕ) → Within 0 (bread dev b)
unfolding bread
bread-Within dev b s = quiet (bget-Within dev b s) (λ i t. read_if_stale-Within i t)

copy_buf-Within : (to from : ℕ) → Within 0 (copy_buf to from)
unfolding copy_buf set_bytes set_buf
copy_buf-Within to from s = ended (omega arith)

set_bytes-power : (i : ℕ) (b : Block) (s : Bcache) → (set_bytes i b s).power ≡ s.power
unfolding set_bytes set_buf
set_bytes-power i b s = refl

write_log_one-Within : (log : Log) (tail : ℕ) → Within 1 (write_log_one log tail)
unfolding write_log_one
write_log_one-Within log tail s = quiet (bread-Within _ _ s) λ to s₁.
    quiet (bread-Within _ _ s₁) λ from s₂. quiet (copy_buf-Within to from s₂) λ _ s₃.
      spend 1 0 1 (omega arith) (bwrite-Within to s₃)
        λ _ s₄. quiet (brelse-Within from s₄) λ _ s₅. brelse-Within to s₅

write_log_loop-Within : (log : Log) (left tail : ℕ) → Within left (write_log_loop log left tail)
unfolding write_log_loop
write_log_loop-Within log zero tail s = ended (omega arith)
write_log_loop-Within log (suc left) tail s =
    spend 1 left (suc left) (omega arith) (write_log_one-Within log tail s)
      λ _ t. write_log_loop-Within log left (tail + 1) t

install_one-Within :
    (log : Log) (recovering : Bool) (tail : ℕ) → Within 1 (install_one log recovering tail)
unfolding install_one bunpin set_buf
install_one-Within log recovering tail s = quiet (bread-Within _ _ s) λ lbuf s₁.
    quiet (bread-Within _ _ s₁) λ dbuf s₂. quiet (copy_buf-Within dbuf lbuf s₂) λ _ s₃.
      spend 1 0 1 (omega arith) (bwrite-Within dbuf s₃) λ _ s₄.
        quiet (unpin recovering dbuf s₄)
          λ _ s₅. quiet (brelse-Within lbuf s₅) λ _ s₆. brelse-Within dbuf s₆
  where
    unpin : (recovering : Bool) (i : ℕ) → Within 0 (if recovering then pure tt else bunpin i)
    unpin true i t = ended (omega arith)
    unpin false i t = ended (omega arith)

install_loop-Within :
    (log : Log) (recovering : Bool) (left tail : ℕ)
    → Within left (install_loop log recovering left tail)
unfolding install_loop
install_loop-Within log recovering zero tail s = ended (omega arith)
install_loop-Within log recovering (suc left) tail s =
    spend 1 left (suc left) (omega arith) (install_one-Within log recovering tail s)
      λ _ t. install_loop-Within log recovering left (tail + 1) t

write_head-Within : (log : Log) → Within 1 (write_head log)
unfolding write_head
write_head-Within log s = quiet (bread-Within _ _ s) λ buf s₁.
    quiet {A = Unit {0}}
      (ended {a = tt} (omega (arith, set_bytes-power buf (header_bytes log (s₁.buf buf).bytes) s₁)))
      λ _ s₂. spend 1 0 1 (omega arith) (bwrite-Within buf s₂) λ _ s₃. brelse-Within buf s₃

-- commit() makes at most two writes for each block of the log, and two of the header.
pub commit-Within : (log : Log) → Within (2 * rounds log.n + 2) (commit log)
unfolding commit commit_all write_log install_trans
commit-Within log s = elim (Bool-cases (ltb 0 (rounds log.n))) [
  | inr e ↦ rw e (ended (omega arith))
  | inl e ↦ rw e (
      spend (rounds log.n) (rounds log.n + 2) _ (omega arith)
        (write_log_loop-Within log (rounds log.n) 0 s)
        λ _ s₁. spend 1 (rounds log.n + 1) _ (omega arith) (write_head-Within log s₁) λ _ s₂.
          spend (rounds log.n) 1 _ (omega arith) (install_loop-Within log false (rounds log.n) 0 s₂)
            λ _ s₃.
              spend 1 0 _ (omega arith) (write_head-Within (record log { n = 0 }) s₃)
                λ _ s₄. ended (omega arith))
]

-- the rest of a run may use what is known of its first step
quiet_known :
    {A B : Type 0} {Q : A → Bcache → Type 0} {C : Disk → Type 0} {k p : ℕ} {r : Result (A × Bcache)}
    {f : A → Prog Bcache B}
    → Runs Q C r
    → Uses 0 p r
    → ((a : A) (t : Bcache) → Q a t → Uses k t.power (f a t))
    → Uses k p (and_then r f)
quiet_known (returns q) (ended u) w = Uses-more (omega (arith, u)) (w _ _ q)
quiet_known (crashes c) (cut u) w = cut (omega (arith, u))

read_head-Within : (log : Log) → Within 0 (read_head log)
unfolding read_head
read_head-Within log s = quiet (bread-Within _ _ s) λ buf s₁.
    quiet {A = Log} (ended {a = read_header log (s₁.buf buf).bytes} {t = s₁} (omega arith))
      λ log' s₂. quiet (brelse-Within buf s₂) λ _ s₃. ended {a = log'} {t = s₃} (omega arith)

boot-rounds :
    (log log' : Log) (d : Disk)
    → log' ≡ read_header log (d log.start)
    → word (d log.start) 0 ≤ log_blocks
    → rounds log'.n ≤ log_blocks
boot-rounds log log' d e few =
    let n : log'.n ≡ word (d log.start) 0 = ap (λ l. l.n) e ∙ read_header-n log (d log.start) in
    omega (arith, n, few, rounds-eq log'.n (omega (arith, n, few)))

-- initlog() makes at most one write for each block of the log, and one of the header.
pub initlog-Uses :
    (dev start : ℕ) (log : Log) (d : Disk) (p : ℕ)
    → dev ≢ 0
    → word (d start) 0 ≤ log_blocks
    → Uses (log_blocks + 1) p (initlog dev start log (binit d p))
unfolding initlog recover_from_log install_trans binit
initlog-Uses dev start log d p nz few =
    let l : Log = record log { start = start; dev = dev } in
    quiet_known
      (read_head-Runs l nz (binit-Is dev nz d p) (λ i. omega arith) (0, mem-indices.0, refl) refl)
      (read_head-Within l (binit d p))
      λ log' t q.
        spend log_blocks 1 _ (omega arith)
          (Uses-more (omega (arith, boot-rounds l log' d q.0 few))
            (install_loop-Within log' true (rounds log'.n) 0 t))
          λ _ u.
            spend 1 0 _ (omega arith) (write_head-Within (record log' { n = 0 }) u)
              λ _ v. ended (omega arith)
