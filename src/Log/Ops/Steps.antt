-- ===== src/Log/Ops/Steps.antt =====
-- Each critical section of log.lock, and each commit, keeps the reservation.
use os.Prelude.{
  ℕ, ◌+◌, ◌-◌, ◌*◌, ◌^◌, ◌<◌, ◌≤◌, ◌≡◌, ◌≢◌, ◌⊎◌, inl, inr, refl, sym, ◌∙◌, Bool, true, false, some,
  arith, List, [], ◌∷◌, ◌++◌, ◌==◌, ltb, u32, Bool-cases,
}
use mathlib.Core.Path.{subst}
use os.Kernel.{Result, ok, panic, sleeps, crashed, Prog, and_then}
use os.Kernel.Runs.{Runs, Runs-ok}
use os.Bio.{Bcache}
use os.Log.{
  Log, log_blocks, max_op_blocks, rounds, write_log, write_head, install_trans, commit, commit_all,
}
use os.Log.Ops.{begin_op, log_write, end_op_leave, end_op_commit}
use os.Log.Ops.Absorb.{absorbed, added, log_write-Listed}
use os.Log.Ops.System.{
  System, total, Step, begins, writes, leaves, commits, Inv, Capped-total, Capped-drop, Capped-swap,
  total-at, length-at, length-zero,
}

begin_op-room :
    (log log' : Log)
    → begin_op log ≡ some log'
    → (log.committing ≡ false)
      × (rounds (u32 (log.n + (log.outstanding + 1) * max_op_blocks)) ≤ log_blocks)
      × (log' ≡ record log { outstanding = u32 (log.outstanding + 1) })
unfolding begin_op
begin_op-room log log' e = elim (Bool-cases log.committing) [
  | inl c ↦ absurd (cc (c, e))
  | inr c ↦
      elim (Bool-cases
        (ltb log_blocks (rounds (u32 (log.n + (log.outstanding + 1) * max_op_blocks))))) [
          | inl f ↦ absurd (cc (c, f, e))
          | inr f ↦
              let started : begin_op log
                  ≡ some (record log { outstanding = u32 (log.outstanding + 1) }) =
                rw (c, f) refl in
              (c, ground arith, cc (e, started))
        ]
]

begins-Inv :
    (log log' : Log) (ops : List ℕ)
    → Inv (record { log = log; ops = ops })
    → begin_op log ≡ some log'
    → Inv (record { log = log'; ops = max_op_blocks ∷ ops })
unfolding total rounds
begins-Inv log log' ops inv e =
    let room = begin_op-room log log' e in
    rw room.2 (record {
      counted = omega (arith, inv.counted, inv.few);
      few = ground (arith, room.1, inv.counted, inv.few, inv.room);
      room = ground (arith, room.1, inv.counted, inv.few, inv.room, Capped-total ops inv.capped);
      capped = (omega arith, inv.capped);
      alone = λ c. cc (c, room.0);
    })

pub not_empty : (pre : List ℕ) (x : ℕ) (post : List ℕ) → pre ++ (x ∷ post) ≢ []
not_empty [] x post e = cc e
not_empty (y ∷ pre) x post e = cc e

-- what end_op() leaves before it commits
end_op_leave-left :
    (log log' : Log) (do_commit : Bool)
    → end_op_leave log ≡ ok (log', do_commit)
    → (log.committing ≡ false)
      × (log'
          ≡ record log { outstanding = u32 (log.outstanding + 2 ^ 32 - 1); committing = do_commit })
      × (do_commit ≡ (u32 (log.outstanding + 2 ^ 32 - 1) == 0))
unfolding end_op_leave
end_op_leave-left log log' do_commit e = elim (Bool-cases log.committing) [
  | inl c ↦ absurd (cc (c, e))
  | inr c ↦ elim (Bool-cases (u32 (log.outstanding + 2 ^ 32 - 1) == 0)) [
    | inl z ↦
        let left : end_op_leave log
            ≡ ok (
              record log { outstanding = u32 (log.outstanding + 2 ^ 32 - 1); committing = true },
              true,
            ) =
          rw (c, z) refl in
        let stays : do_commit ≡ true = cc (left, e) in (c, rw stays (cc (left, e)), cc (left, e, z))
    | inr z ↦
        let left : end_op_leave log
            ≡ ok (
              record log { outstanding = u32 (log.outstanding + 2 ^ 32 - 1); committing = false },
              false,
            ) =
          rw (c, z) refl in
        let stays : do_commit ≡ false = cc (left, e) in
        (c, rw stays (cc (left, e, c)), cc (left, e, z))
  ]
]

leaves-Inv :
    (log log' : Log) (pre post : List ℕ) (left : ℕ) (do_commit : Bool)
    → Inv (record { log = log; ops = pre ++ (left ∷ post) })
    → end_op_leave log ≡ ok (log', do_commit)
    → Inv (record { log = log'; ops = pre ++ post })
unfolding total
leaves-Inv log log' pre post left do_commit inv e =
    let f = end_op_leave-left log log' do_commit e in
    rw f.1 (record {
      counted = omega (arith, inv.counted, inv.few, length-at pre post left);
      few = omega (arith, inv.few, length-at pre post left);
      room = omega (arith, inv.room, total-at pre post left);
      capped = Capped-drop pre post left inv.capped;
      alone = λ d.
          length-zero (pre ++ post)
            (ground (arith, d, f.2, inv.counted, inv.few, length-at pre post left));
    })

writes-Inv :
    (log log' : Log) (pre post : List ℕ) (left left' b : ℕ) (c t : Bcache)
    → Inv (record { log = log; ops = pre ++ (left ∷ post) })
    → 0 < left
    → log_write log b c ≡ ok (log', t)
    → left' + log'.n ≡ left + log.n
    → Inv (record { log = log'; ops = pre ++ (left' ∷ post) })
writes-Inv log log' pre post left left' b c t inv pos e cost =
    let few : log.n < log_blocks = omega (arith, inv.room, pos, total-at pre post left) in
    let w = Runs-ok (
      subst (Runs _ _) e (
        log_write-Listed log b c few (omega (arith, inv.counted, length-at pre post left))
          (omega (arith, inv.counted, inv.few)))) in
    let grows : log.n ≤ log'.n = elim w.0 [
      | absorbed k lt at n same keep ↦ omega (arith, n)
      | added out n at same pin ↦ omega (arith, n)
    ] in
    record {
      counted = omega (arith, w.1, inv.counted, length-at pre post left, length-at pre post left');
      few = omega (arith, inv.few, length-at pre post left, length-at pre post left');
      room = omega (arith, inv.room, cost, total-at pre post left, total-at pre post left');
      capped = Capped-swap pre post left left' (omega (arith, cost, grows)) inv.capped;
      alone = λ d. absurd (not_empty pre left post (inv.alone (sym w.2 ∙ d)));
    }

-- a run in steps that returns goes through a state in which its rest returns
and_then-ok :
    {A B : Type 0} (r : Result (A × Bcache)) (k : A → Prog Bcache B) {b : B} {t : Bcache}
    → and_then r k ≡ ok (b, t)
    → (a : A) × (s : Bcache) × (r ≡ ok (a, s)) × (k a s ≡ ok (b, t))
and_then-ok (ok (a, s)) k e = (a, s, refl, e)
and_then-ok (panic m) k e = absurd (cc e)
and_then-ok sleeps k e = absurd (cc e)
and_then-ok (crashed d) k e = absurd (cc e)

commit-clears :
    (log log' : Log) (c t : Bcache)
    → commit log c ≡ ok (log', t)
    → (log' ≡ log) ⊎ (log' ≡ record log { n = 0 })
unfolding commit commit_all
commit-clears log log' c t e = elim (Bool-cases (ltb 0 (rounds log.n))) [
  | inl busy ↦
      let after : commit_all log c ≡ ok (log', t) = sym (rw busy refl) ∙ e in
      let x₁ = and_then-ok (write_log log c) _ after in
      let x₂ = and_then-ok (write_head log x₁.1) _ x₁.3 in
      let x₃ = and_then-ok (install_trans log false x₂.1) _ x₂.3 in
      let x₄ = and_then-ok (write_head (record log { n = 0 }) x₃.1) _ x₃.3 in inr (cc x₄.3)
  | inr idle ↦ let same : commit log c ≡ ok (log, c) = rw idle refl in inl (cc (same, e))
]

commits-Inv :
    (log log' : Log) (ops : List ℕ) (c t : Bcache)
    → Inv (record { log = log; ops = ops })
    → log.committing ≡ true
    → end_op_commit log true c ≡ ok (log', t)
    → Inv (record { log = log'; ops = ops })
unfolding end_op_commit
commits-Inv log log' ops c t inv busy e =
    let x = and_then-ok (commit log c) _ e in
    let back : log' ≡ record x.0 { committing = false } = cc x.3 in
    elim (commit-clears log x.0 c x.1 x.2) [
      | inl same ↦ rw (back, same) (ended log (omega arith) refl)
      | inr cleared ↦ rw (back, cleared) (ended (record log { n = 0 }) (omega arith) refl)
    ]
  where
    ended :
        (log₁ : Log)
        → log₁.n ≤ log.n
        → log₁.outstanding ≡ log.outstanding
        → Inv (record { log = record log₁ { committing = false }; ops = ops })
    ended log₁ n out = record {
      counted = omega (arith, out, inv.counted);
      few = inv.few;
      room = omega (arith, n, inv.room);
      capped = inv.capped;
      alone = λ d. absurd (cc d);
    }

pub Step-Inv : {s t : System} → Step s t → Inv s → Inv t
Step-Inv (begins e) inv = begins-Inv _ _ _ inv e
Step-Inv (writes pre post left left' b c t pos e cost) inv =
    writes-Inv _ _ pre post left left' b c t inv pos e cost
Step-Inv (leaves pre post left e) inv = leaves-Inv _ _ pre post left _ inv e
Step-Inv (commits c t busy e) inv = commits-Inv _ _ _ c t inv busy e
