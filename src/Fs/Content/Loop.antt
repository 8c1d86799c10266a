-- ===== src/Fs/Content/Loop.antt =====
-- The loop of writei().
use Prim.Native.Nat.{min}
use os.Prelude.{
  ℕ, zero, suc, ◌+◌, ◌-◌, ◌/◌, ◌%◌, ◌<◌, ◌≤◌, ◌≡◌, ◌⊎◌, inl, inr, false, ◌==◌, ltb, arith,
  Bool-cases,
}
use mathlib.Core.Path.{subst}
use os.Kernel.Runs.{Runs, returns, Runs-bind, Runs-mono}
use os.Fs.{Fs, bsize, store}
use os.Fs.Slots.{Inv}
use os.Fs.Map.{bmap-Mapped}
use os.Fs.Content.{CopyIn, write_loop}
use os.Fs.Content.Round.{
  Wrote, Wrote-refl, Wrote-none, Wrote-trans, round-Wrote, Copies, IsFull, Touched, Touched-refl,
  Touched-none, Touched-trans, round-Touched,
}
use os.Fs.Content.Bytes.{max_size}

abbrev pub LoopEnds : (ℕ → ℕ) → Fs → ℕ → ℕ → ℕ → ℕ → ℕ × ℕ → Fs → Type 0
LoopEnds bytes s tot off src n r u =
    (k : ℕ) × (r.0 ≡ tot + k)
    × (r.1 ≡ off + k)
    × (tot + k ≤ n)
    × Wrote bytes s off src k u
    × ((tot + k ≡ n) ⊎ IsFull u)
    × Touched s off k u

module _ (copyin : CopyIn) (bytes : ℕ → ℕ) (copies : Copies copyin bytes) where
  LoopEnds-later :
      (s t : Fs) (tot off src n m : ℕ) (r : ℕ × ℕ) (u : Fs)
      → Wrote bytes s off src m t
      → Touched s off m t
      → off + m ≤ max_size
      → LoopEnds bytes t (tot + m) (off + m) (src + m) n r u
      → LoopEnds bytes s tot off src n r u
  LoopEnds-later s t tot off src n m r u w p room (k, e, f, le, v, why, q) = (
    m + k,
    omega (arith, e),
    omega (arith, f),
    omega (arith, le),
    Wrote-trans bytes s t u off src m k w v,
    elim why [ inl all ↦ inl (omega (arith, all)) | inr full ↦ inr full ],
    Touched-trans s t u off m k room p q,
  )

  pub write_loop-LoopEnds :
      (fuel tot off src n : ℕ) (s : Fs)
      → Inv s
      → tot ≤ n
      → off + (n - tot) ≤ max_size
      → n - tot < fuel
      → Runs (LoopEnds bytes s tot off src n) (λ d. ⊥) (write_loop copyin fuel tot off src n s)
  unfolding write_loop
  write_loop-LoopEnds zero tot off src n s inv le room enough = absurd (omega (arith, enough))
  write_loop-LoopEnds (suc fuel) tot off src n s inv le room enough =
      elim (Bool-cases (ltb tot n)) [
        | inr e ↦ rw e (
            returns (
              0,
              omega arith,
              omega arith,
              omega arith,
              Wrote-refl bytes s off src inv,
              inl (ground arith),
              Touched-refl s off,
            ))
        | inl e ↦
            let lt : off / bsize < 268 = ground (arith, room) in
            rw e (
              Runs-bind (bmap-Mapped s (off / bsize) inv lt) λ r t map. elim map.found [
                | inl (z, empty, full) ↦ rw z (
                    returns (
                      0,
                      omega arith,
                      omega arith,
                      omega arith,
                      Wrote-none bytes s t off src (off / bsize) r inv lt map,
                      inr (λ j jlt. full j (subst (λ b. j < b.size) map.grows.sb jlt)),
                      Touched-none s t off (off / bsize) r map empty,
                    ))
                | inr (pos, at, zeroed) ↦
                    let busy : (r == 0) ≡ false = ground arith in
                    let m = min (n - tot) (bsize - off % bsize) in
                    let c = copies src (off % bsize) m (t.disk r) in
                    let done = c.0 in
                    let w =
                      round-Wrote bytes s t off src r m (copyin src (off % bsize) m (t.disk r)).1
                        inv (ground (arith, room)) map (omega arith) pos at c.1 in
                    let p =
                      round-Touched bytes s t off src r m (copyin src (off % bsize) m (t.disk r)).1
                        inv (ground (arith, room)) map (omega arith) pos at c.1 (ground arith) in
                    rw (busy, done)
                      (Runs-mono
                        (write_loop-LoopEnds fuel (tot + m) (off + m) (src + m) n
                          (store r (copyin src (off % bsize) m (t.disk r)).1 t) w.inv (ground arith)
                          (ground (arith, room)) (ground (arith, enough)))
                        (λ q u ends.
                          LoopEnds-later s _ tot off src n m q u w p (ground (arith, room)) ends)
                        (λ d q. q))
              ])
      ]
