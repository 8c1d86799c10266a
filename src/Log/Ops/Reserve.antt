-- ===== src/Log/Ops/Reserve.antt =====
-- begin_op() reserves enough: what holds in every reachable state.
use os.Prelude.{
  ℕ, ◌+◌, ◌-◌, ◌^◌, ◌<◌, ◌≡◌, ◌↔◌, inl, inr, refl, ap, Bool, true, false, arith, List, [], ◌∷◌,
  ◌++◌, ◌==◌, u32, length, Bool-cases,
}
use os.Kernel.{ok}
use os.Kernel.Runs.{Runs}
use os.Bio.{Bcache}
use os.Log.{Log}
use os.Log.Ops.{log_write, end_op_leave}
use os.Log.Ops.Absorb.{Listed, log_write-Listed}
use os.Log.Ops.System.{
  System, total, Reach, boots, then_step, Inv, total-at, length-at, length-zero,
}
use os.Log.Ops.Steps.{Step-Inv, not_empty}

-- In every reachable state log.outstanding counts the operations in progress, at most three; the
-- entries of the log and all that these operations may still add fit the log; and no operation
-- is in progress while a commit runs.
pub reservation : (s : System) → Reach s → Inv s
unfolding total
reservation s (boots n out idle) = record {
  counted = out;
  few = omega arith;
  room = omega (arith, n);
  capped = tt;
  alone = λ d. refl;
}
reservation s (then_step r step) = Step-Inv step (reservation _ r)

-- In every reachable state an operation that may still add a block calls log_write() without a
-- panic: the block is absorbed, or added at the end and pinned.
pub log_write-in_op :
    (log : Log) (pre post : List ℕ) (left b : ℕ) (c : Bcache)
    → Reach (record { log = log; ops = pre ++ (left ∷ post) })
    → 0 < left
    → Runs
        (λ log' t.
          Listed log b c log' t
          × (log'.outstanding ≡ log.outstanding)
          × (log'.committing ≡ log.committing))
        (λ d. ⊥)
        (log_write log b c)
unfolding total
log_write-in_op log pre post left b c r pos =
    let inv = reservation _ r in
    log_write-Listed log b c (omega (arith, inv.room, pos, total-at pre post left))
      (omega (arith, inv.counted, length-at pre post left)) (omega (arith, inv.counted, inv.few))

-- In every reachable state the end_op() of an operation in progress does not panic, and it asks
-- for a commit exactly if no other operation is in progress.
pub end_op_leave-in_op :
    (log : Log) (pre post : List ℕ) (left : ℕ)
    → Reach (record { log = log; ops = pre ++ (left ∷ post) })
    → (log' : Log) × (do_commit : Bool) × (end_op_leave log ≡ ok (log', do_commit))
      × ((do_commit ≡ true) ↔ (pre ++ post ≡ []))
unfolding end_op_leave
end_op_leave-in_op log pre post left r =
    let inv = reservation _ r in
    elim (Bool-cases log.committing) [
      | inl busy ↦ absurd (not_empty pre left post (inv.alone busy))
      | inr idle ↦ elim (Bool-cases (u32 (log.outstanding + 2 ^ 32 - 1) == 0)) [
        | inl z ↦ (
          record log { outstanding = u32 (log.outstanding + 2 ^ 32 - 1); committing = true },
          true,
          rw (idle, z) refl,
          (
            λ _.
                length-zero (pre ++ post)
                  (ground (arith, inv.counted, inv.few, length-at pre post left)),
            λ _. refl,
          ),
        )
        | inr z ↦ (
          record log { outstanding = u32 (log.outstanding + 2 ^ 32 - 1) },
          false,
          rw (idle, z) refl,
          (
            λ d. absurd (cc d),
            λ e. absurd (ground (arith, inv.counted, ap length e, length-at pre post left)),
          ),
        )
      ]
    ]
