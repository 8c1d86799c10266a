-- ===== src/Log/Ops/System.antt =====
-- The operations in progress and the log: how the calls of a file system operation interleave.
use os.Prelude.{
  ℕ, suc, ◌+◌, ◌*◌, ◌<◌, ◌≤◌, ◌≡◌, refl, ap, Bool, true, false, some, arith, List, [], ◌∷◌, ◌++◌,
  length,
}
use os.Kernel.{ok}
use os.Bio.{Bcache}
use os.Log.{Log, log_blocks, max_op_blocks}
use os.Log.Ops.{begin_op, log_write, end_op_leave, end_op_commit}

-- The log, and for each operation between begin_op() and end_op() the number of blocks that it
-- may still add to the log.
pub record System : Type 0 where
  pub log : Log
  pub ops : List ℕ

unfoldable pub total : List ℕ → ℕ
total [] = 0
total (x ∷ xs) = x + total xs

-- The critical sections of log.lock, in the order in which the threads enter them, with the
-- commit that no operation overlaps. An operation keeps to its MAXOPBLOCKS blocks.
pub data Step : System → System → Type 0 where
  begins :
      {log log' : Log} {ops : List ℕ}
      → begin_op log ≡ some log'
      → Step (record { log = log; ops = ops }) (record { log = log'; ops = max_op_blocks ∷ ops })
  writes :
      {log log' : Log} (pre post : List ℕ) (left left' b : ℕ) (c t : Bcache)
      → 0 < left
      → log_write log b c ≡ ok (log', t)
      → left' + log'.n ≡ left + log.n
      → Step
          (record { log = log; ops = pre ++ (left ∷ post) })
          (record { log = log'; ops = pre ++ (left' ∷ post) })
  leaves :
      {log log' : Log} (pre post : List ℕ) (left : ℕ) {do_commit : Bool}
      → end_op_leave log ≡ ok (log', do_commit)
      → Step
          (record { log = log; ops = pre ++ (left ∷ post) })
          (record { log = log'; ops = pre ++ post })
  commits :
      {log log' : Log} {ops : List ℕ} (c t : Bcache)
      → log.committing ≡ true
      → end_op_commit log true c ≡ ok (log', t)
      → Step (record { log = log; ops = ops }) (record { log = log'; ops = ops })

pub data Reach : System → Type 0 where
  boots :
      {log : Log}
      → log.n ≡ 0
      → log.outstanding ≡ 0
      → log.committing ≡ false
      → Reach (record { log = log; ops = [] })
  then_step : {s t : System} → Reach s → Step s t → Reach t

-- every operation stays within MAXOPBLOCKS
abbrev pub Capped : List ℕ → Type 0
Capped [] = Unit {0}
Capped (x ∷ xs) = (x ≤ max_op_blocks) × Capped xs

-- The log has room for all that the operations in progress may add; a commit runs alone.
pub record Inv (s : System) : Type 0 where
  pub counted : s.log.outstanding ≡ length s.ops
  pub few : length s.ops ≤ 3
  pub room : s.log.n + total s.ops ≤ log_blocks
  pub capped : Capped s.ops
  pub alone : s.log.committing ≡ true → s.ops ≡ []

pub Capped-total : (ops : List ℕ) → Capped ops → total ops ≤ length ops * max_op_blocks
unfolding total
Capped-total [] c = omega arith
Capped-total (x ∷ ops) c = omega (arith, Capped-total ops c.1, c.0)

pub Capped-drop : (pre post : List ℕ) (x : ℕ) → Capped (pre ++ (x ∷ post)) → Capped (pre ++ post)
Capped-drop [] post x c = c.1
Capped-drop (y ∷ pre) post x c = (c.0, Capped-drop pre post x c.1)

pub Capped-swap :
    (pre post : List ℕ) (x y : ℕ) → y ≤ x → Capped (pre ++ (x ∷ post)) → Capped (pre ++ (y ∷ post))
Capped-swap [] post x y le c = (omega (arith, le, c.0), c.1)
Capped-swap (z ∷ pre) post x y le c = (c.0, Capped-swap pre post x y le c.1)

pub total-at : (pre post : List ℕ) (x : ℕ) → total (pre ++ (x ∷ post)) ≡ x + total (pre ++ post)
unfolding total
total-at [] post x = refl
total-at (y ∷ pre) post x = omega (arith, total-at pre post x)

pub length-at :
    (pre post : List ℕ) (x : ℕ) → length (pre ++ (x ∷ post)) ≡ suc (length (pre ++ post))
length-at [] post x = refl
length-at (y ∷ pre) post x = ap suc (length-at pre post x)

pub length-zero : (xs : List ℕ) → length xs ≡ 0 → xs ≡ []
length-zero [] e = refl
length-zero (x ∷ xs) e = absurd (omega (arith, e))
