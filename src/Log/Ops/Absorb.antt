-- ===== src/Log/Ops/Absorb.antt =====
-- log_write(): absorption.
use os.Prelude.{
  ℕ, zero, suc, ◌+◌, ◌^◌, ◌<◌, ◌≤◌, ◌≡◌, ◌≢◌, ◌⊎◌, inl, inr, refl, true, false, arith, ◌==◌, ltb,
  leb, Bool-cases, ==_iff,
}
use os.Kernel.{ok}
use os.Kernel.Runs.{Runs, returns}
use os.Bio.{Bcache, bpin}
use os.Log.{Log, log_blocks}
use os.Log.Header.{rounds-eq}
use os.Log.Ops.{absorb, log_write}

-- the walk stops at an entry of the block, or finds none
absorb_lem :
    (block : ℕ → ℕ) (b left i : ℕ)
    → let k = absorb block b left i in
      ((i ≤ k) × (k < i + left) × (block k ≡ b))
      ⊎ ((k ≡ i + left) × ((j : ℕ) → i ≤ j → j < i + left → block j ≢ b))
unfolding absorb
absorb_lem block b zero i = inr (omega arith, λ j lo hi. absurd (omega arith))
absorb_lem block b (suc left) i = elim (Bool-cases (block i == b)) [
  | inl e ↦ rw e (inl (omega arith, omega arith, (==_iff (block i) b).0 e))
  | inr ne ↦ rw ne (elim (absorb_lem block b left (i + 1)) [
    | inl (lo, hi, at) ↦ inl (omega arith, omega arith, at)
    | inr (end, out) ↦ inr (
      omega (arith, end),
      λ j lo hi e. elim (Bool-cases (j == i)) [
        | inl eq ↦ ground arith
        | inr other ↦ out j (ground arith) (omega arith) e
      ],
    )
  ])
]

-- The block was listed, and nothing changes; or it was not, and it is the last entry and pinned.
pub data Listed (log : Log) (b : ℕ) (s : Bcache) (log' : Log) (t : Bcache) : Type 0 where
  absorbed :
      (k : ℕ)
      → k < log.n
      → log.block k ≡ (s.buf b).blockno
      → log'.n ≡ log.n
      → ((j : ℕ) → log'.block j ≡ log.block j)
      → t ≡ s
      → Listed log b s log' t
  added :
      ((k : ℕ) → k < log.n → log.block k ≢ (s.buf b).blockno)
      → log'.n ≡ log.n + 1
      → log'.block log.n ≡ (s.buf b).blockno
      → ((k : ℕ) → k < log.n → log'.block k ≡ log.block k)
      → bpin b s ≡ ok (tt, t)
      → Listed log b s log' t

-- Inside an operation and with a free entry, log_write() returns. It leaves a log that lists the
-- block already as it was, and otherwise adds the block at the end, with one pin.
pub log_write-Listed :
    (log : Log) (b : ℕ) (s : Bcache)
    → log.n < log_blocks
    → 0 < log.outstanding
    → log.outstanding < 2 ^ 31
    → Runs
        (λ log' t.
          Listed log b s log' t
          × (log'.outstanding ≡ log.outstanding)
          × (log'.committing ≡ log.committing))
        (λ d. ⊥)
        (log_write log b s)
unfolding log_write bpin
log_write-Listed log b s few in_op small =
    rw (rounds-eq log.n (omega (arith, few)), rounds-eq log.outstanding small, full, in_trans)
      (elim (absorb_lem log.block (s.buf b).blockno log.n 0) [
        | inl (lo, hi, at) ↦
            let early : (absorb log.block (s.buf b).blockno log.n 0 == log.n) ≡ false =
              ground arith in
            rw early (
              returns (absorbed _ (omega arith) at refl (λ j. ground (arith, at)) refl, refl, refl))
        | inr (end, out) ↦
            let last : (absorb log.block (s.buf b).blockno log.n 0 == log.n) ≡ true =
              ground arith in
            rw last (
              returns (
                added (λ k lt. out k (omega arith) (omega arith)) (omega (arith, few))
                    (ground (arith, end)) (λ k lt. ground (arith, end)) refl,
                refl,
                refl,
              ))
      ])
  where
    full : leb log_blocks log.n ≡ false
    full = ground arith

    in_trans : ltb log.outstanding 1 ≡ false
    in_trans = ground arith
