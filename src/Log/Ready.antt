-- ===== src/Log/Ready.antt =====
-- The states before and after commit(), and the disks between its writes.
use os.Prelude.{
  ℕ, zero, suc, ◌+◌, ◌^◌, ◌<◌, ◌≤◌, ◌≡◌, ◌≢◌, ◌⊎◌, inl, inr, sym, ap, ◌∙◌, Bool, arith,
}
use native.Mathlib.Decide.{dec_lt, ℕ_discrete}
use os.Kernel.{Block, Disk}
use os.Bio.{Bcache}
use os.Bio.Spec.{Is}
use os.Log.Two.{no_lock, Room}
use os.Log.Copy.{Pinned}
use os.Log.Header.{rounds-eq, header_bytes-n, header_bytes-block}
use os.Log.{Log, log_blocks, word, rounds, header_bytes}
use os.Log.Area.{InLog, Stands, Stands-empty}

-- The cache and the log when commit() is called: the header on the disk is empty, nobody holds a
-- buffer, and what the log lists is exactly what is pinned and may differ from the disk.
pub record Ready (log : Log) (V : ℕ → Block) (D : Disk) (s : Bcache) : Type 0 where
  pub refs : ℕ → ℕ
  pub members : ℕ → Bool
  pub state : Is log.dev V D refs no_lock members s.power s
  pub low : (i : ℕ) → refs i ≤ 1
  pub room : Room refs members
  pub device : log.dev ≢ 0
  pub few : log.n ≤ log_blocks
  pub pins : (k : ℕ) → k < log.n → Pinned log.dev refs s (log.block k)
  pub home : (k : ℕ) → k < log.n → ¬ InLog log.start (log.block k)
  pub distinct : (j k : ℕ) → j < k → k < log.n → log.block j ≢ log.block k
  pub words : (k : ℕ) → k < log.n → log.block k < 2 ^ 32
  pub empty : word (D log.start) 0 ≡ 0
  pub logged : (c : ℕ) → ¬ InLog log.start c → ((k : ℕ) → k < log.n → log.block k ≢ c) → V c ≡ D c

-- What commit() leaves when it returns: every block has reached the disk and the log is empty.
pub record Done (log : Log) (V : ℕ → Block) (log' : Log) (t : Bcache) : Type 0 where
  pub cleared : log' ≡ record log { n = 0 }
  pub reads : ℕ → Block
  pub disk : Disk
  pub refs : ℕ → ℕ
  pub members : ℕ → Bool
  pub state : Is log.dev reads disk refs no_lock members t.power t
  pub written : (c : ℕ) → ¬ InLog log.start c → (disk c ≡ V c) × (reads c ≡ V c)
  pub empty : word (disk log.start) 0 ≡ 0

-- a block number is listed among the first `n`, or it is not
pub find_entry :
    (block : ℕ → ℕ) (n c : ℕ)
    → ((k : ℕ) × (k < n) × (block k ≡ c)) ⊎ ((k : ℕ) → k < n → block k ≢ c)
find_entry block zero c = inr (λ k lt. absurd (omega arith))
find_entry block (suc n) c = elim (ℕ_discrete (block n) c) [
  | yes e ↦ inl (n, omega arith, e)
  | no ne ↦ elim (find_entry block n c) [
    | inl (k, lt, e) ↦ inl (k, omega arith, e)
    | inr out ↦ inr (λ k lt e. elim (ℕ_discrete k n) [
      | yes eq ↦ ne (ap block (sym eq) ∙ e)
      | no other ↦ out k (omega arith) e
    ])
  ]
]

pub not-InLog : {start c : ℕ} → ¬ InLog start c → (c ≤ start) ⊎ (start + log_blocks < c)
not-InLog {start} {c} out = elim (dec_lt c start) [
  | yes lt ↦ inl (omega arith)
  | no ge ↦ elim (dec_lt (start + log_blocks) c) [
    | yes lt ↦ inr lt
    | no le ↦ absurd (out (omega arith, omega arith))
  ]
]

module _ (log : Log) {V : ℕ → Block} {D : Disk} {s : Bcache} (ready : Ready log V D s) where
  open ready use {few, home, words, empty, logged, distinct}

  pub count : rounds log.n ≡ log.n
  count = rounds-eq log.n (omega (arith, few))

  -- the disk of a crash before the header is written
  pub before_header :
      {d : Disk}
      → ((c : ℕ) → (c ≤ log.start) ⊎ (log.start + log_blocks < c) → d c ≡ D c)
      → Stands log.start d D
  before_header {d} e =
      Stands-empty (ap (λ b. word b 0) (e log.start (inl (omega arith))) ∙ empty)
        (λ c out. e c (not-InLog out))

  -- the disk once the header is written, until it is erased
  pub after_header :
      {d : Disk}
      → word (d log.start) 0 ≡ log.n
      → ((k : ℕ) → k < log.n → word (d log.start) (k + 1) ≡ log.block k)
      → ((k : ℕ) → k < log.n → d (log.start + k + 1) ≡ V (log.block k))
      → ((c : ℕ) → ¬ InLog log.start c → ((k : ℕ) → k < log.n → log.block k ≢ c) → d c ≡ V c)
      → Stands log.start d V
  after_header {d} n blocks copies others = record {
    few = omega (arith, n, few);
    outside = λ k lt. rw (blocks k (omega (arith, n, lt))) (home k (omega (arith, n, lt)));
    entries = λ k lt. rw (blocks k (omega (arith, n, lt))) (copies k (omega (arith, n, lt)));
    others = λ c out free. others c out (λ k lt e. free k (omega (arith, n, lt)) (blocks k lt ∙ e));
  }

  pub headed : (b : Block) → word (header_bytes log b) 0 ≡ log.n
  headed b = header_bytes-n log b (omega (arith, few))

  pub headed_block :
      (b : Block) (k : ℕ) → k < log.n → word (header_bytes log b) (k + 1) ≡ log.block k
  headed_block b k lt = header_bytes-block log b k (omega (arith, few)) lt (words k lt)
