-- ===== src/Kernel/Runs.antt =====
-- Total correctness with crashes: the run neither panics nor sleeps; if it returns, its value and
-- state satisfy one condition, and if the power fails in it, the disk satisfies another.
use os.Kernel.{Disk, Result, ok, crashed, Prog, and_then}

pub data Runs {S A : Type 0} (Q : A → S → Type 0) (C : Disk → Type 0)
    : Result (A × S) → Type 0 where
  returns : {a : A} {s : S} → Q a s → Runs Q C (ok (a, s))
  crashes : {d : Disk} → C d → Runs Q C (crashed d)

module _ {S A : Type 0} {Q : A → S → Type 0} {C : Disk → Type 0} where
  pub Runs-bind :
      {B : Type 0} {R : B → S → Type 0} {r : Result (A × S)} {k : A → Prog S B}
      → Runs Q C r
      → ((a : A) (s : S) → Q a s → Runs R C (k a s))
      → Runs R C (and_then r k)
  Runs-bind (returns q) next = next _ _ q
  Runs-bind (crashes c) next = crashes c

  pub Runs-mono :
      {R : A → S → Type 0} {D : Disk → Type 0} {r : Result (A × S)}
      → Runs Q C r
      → ((a : A) (s : S) → Q a s → R a s)
      → ((d : Disk) → C d → D d)
      → Runs R D r
  Runs-mono (returns q) f g = returns (f _ _ q)
  Runs-mono (crashes c) f g = crashes (g _ c)

  -- a run that cannot lose the power meets every condition on the disk
  pub Runs-safe : {r : Result (A × S)} → Runs Q (λ _. ⊥) r → Runs Q C r
  Runs-safe (returns q) = returns q
  Runs-safe (crashes c) = absurd c

  pub Runs-ok : {a : A} {s : S} → Runs Q C (ok (a, s)) → Q a s
  Runs-ok (returns q) = q

  pub Runs-crashed : {d : Disk} → Runs Q C (crashed d) → C d
  Runs-crashed (crashes c) = c
