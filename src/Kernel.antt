-- ===== src/Kernel.antt =====
-- Kernel code as programs over a state: a call returns, panics, would sleep for ever, or is cut
-- off by a power failure, after which only the disk is left.
pub mod Runs
use Prim.Native.String.{String}
use os.Prelude.{ℕ}

-- A disk block, its BSIZE bytes by offset, and the disk, its blocks by number.
abbrev pub Block : Type 0
Block = ℕ → ℕ

abbrev pub Disk : Type 0
Disk = ℕ → Block

pub data Result {ℓ} (A : Type ℓ) : Type ℓ where
  ok : A → Result A
  panic : String → Result A
  sleeps : Result A
  crashed : Disk → Result A

abbrev pub Prog : Type 0 → Type 0 → Type 0
Prog S A = S → Result (A × S)

module _ {S A B : Type 0} where
  abbrev pub and_then : Result (A × S) → (A → Prog S B) → Result (B × S)
  and_then (ok (a, s)) k = k a s
  and_then (panic m) k = panic m
  and_then sleeps k = sleeps
  and_then (crashed d) k = crashed d

  infixl 5 ◌>>=◌ ◌>>◌
  abbrev pub ◌>>=◌ : Prog S A → (A → Prog S B) → Prog S B
  ◌>>=◌ m k s = and_then (m s) k

  abbrev pub ◌>>◌ : Prog S A → Prog S B → Prog S B
  ◌>>◌ m k s = and_then (m s) (λ _. k)

module _ {S A : Type 0} where
  abbrev pub pure : A → Prog S A
  pure a s = ok (a, s)

  abbrev pub gets : (S → A) → Prog S A
  gets f s = ok (f s, s)

abbrev pub modify : {S : Type 0} → (S → S) → Prog S (Unit {0})
modify f s = ok (tt, f s)
