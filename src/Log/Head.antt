-- ===== src/Log/Head.antt =====
-- write_head() and read_head(): one block write, and one block read.
use os.Prelude.{ℕ, ◌-◌, ◌≤◌, ◌≡◌, ◌≢◌, inl, refl, ap, Bool, arith, update}
use os.Kernel.{Block, Disk}
use os.Kernel.Runs.{Runs, returns, Runs-bind, Runs-mono, Runs-safe}
use os.Bio.{Bcache}
use os.Bio.Spec.{Is, Is-ext}
use os.Bio.Give.{bread-Given}
use os.Bio.Hold.{set_bytes-Is, set_bytes-Keeps}
use os.Bio.Write.{bwrite-Is}
use os.Bio.Release.{brelse-Is}
use os.Log.Two.{no_lock, Room, KeepsHeld}
use os.Log.{Log, header_bytes, read_header, write_head, read_head}

module _ (log : Log) (nz : log.dev ≢ 0) {V : ℕ → Block} {D : Disk} {r : ℕ → ℕ} {m : ℕ → Bool}
    {p : ℕ} {s : Bcache} (is : Is log.dev V D r no_lock m p s) (low : (i : ℕ) → r i ≤ 1)
    (room : Room r m) where
  pub write_head-Runs :
      let h = header_bytes log (V log.start) in
      Runs
        (λ _ t.
          Is log.dev (update V log.start h) (update D log.start h) r no_lock m (p - 1) t
          × KeepsHeld log.dev r s t)
        (λ d. (c : ℕ) → d c ≡ D c)
        (write_head log s)
  unfolding write_head
  write_head-Runs =
      Runs-bind
        (Runs-safe (
          bread-Given dev nz is b (λ i a. (refl, omega (arith, low i))) (λ i z. refl)
            (room.0, room.1, inl room.2)))
        λ i s₁ g.
          let h : Block = header_bytes log (s₁.buf i).bytes in
          let edited =
            set_bytes-Is dev nz g.is b i g.at h (g.is.held_valid i (ground arith)) (ground arith) in
          let same = set_bytes-Keeps dev nz g.is b i g.at h in
          Runs-bind
            (Runs-mono
              (bwrite-Is dev nz edited b i (same dev b i g.at) (edited.held_valid i (ground arith))
                (ground arith))
              (λ a t q. q) (λ d q. q))
            λ _ s₂ w.
              Runs-mono
                (Runs-safe (
                  brelse-Is dev nz w.1 b i (w.2 dev b i (same dev b i g.at)) (ground arith)
                    (ground arith) (ground (arith, low i)) (λ e. ground arith)))
                (λ _ t q. (
                  Is-ext q.0 (λ c. ground (arith, ap (header_bytes log) g.bytes))
                      (λ c. ground (arith, ap (header_bytes log) g.bytes)) (λ k. ground arith)
                      (λ k. ground arith) refl,
                  λ c k a pos. q.1 dev c k (w.2 dev c k (same dev c k (g.keeps c k a pos))),
                ))
                (λ d q. q)
    where
      dev : ℕ
      dev = log.dev

      b : ℕ
      b = log.start

  pub read_head-Runs :
      V log.start ≡ D log.start
      → Runs
          (λ log' t. (log' ≡ read_header log (V log.start)) × Is log.dev V D r no_lock m p t)
          (λ d. ⊥)
          (read_head log s)
  unfolding read_head
  read_head-Runs clean =
      Runs-bind
        (bread-Given dev nz is b (λ i a. (refl, omega (arith, low i))) (λ i z. refl)
          (room.0, room.1, inl room.2))
        λ i s₁ g.
          Runs-bind
            (brelse-Is dev nz g.is b i g.at (ground arith) (ground arith) (ground (arith, low i))
              (λ _. clean))
            λ _ s₂ q. returns (
              ap (read_header log) g.bytes,
              Is-ext q.0 (λ c. refl) (λ c. refl) (λ k. ground arith) (λ k. ground arith) refl,
            )
    where
      dev : ℕ
      dev = log.dev

      b : ℕ
      b = log.start
