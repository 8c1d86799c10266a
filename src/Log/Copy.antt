-- ===== src/Log/Copy.antt =====
-- write_log(): the blocks of the transaction go from the cache to the log.
use os.Prelude.{
  ℕ, zero, suc, ◌+◌, ◌-◌, ◌<◌, ◌≤◌, ◌≡◌, ◌≢◌, ◌⊎◌, inl, inr, refl, sym, ap, ◌∙◌, Bool, arith, ◌==◌,
  update, Bool-cases,
}
use os.Kernel.{Block, Disk}
use os.Kernel.Runs.{Runs, returns, Runs-bind, Runs-mono, Runs-safe}
use os.Bio.{Bcache}
use os.Bio.Cache.{At}
use os.Bio.Spec.{Is, Is-ext}
use os.Bio.Hold.{set_bytes, set_bytes-Is, set_bytes-Keeps, bytes_of_view}
use os.Bio.Write.{bwrite-Is}
use os.Log.Two.{no_lock, Room, KeepsHeld, bread_two-Both, brelse_two-Is}
use os.Log.{Log, log_blocks, write_log_one, write_log_loop, copy_buf}
use os.Log.Area.{InLog}

-- the block has a buffer with one reference, the pin of log_write()
abbrev pub Pinned : ℕ → (ℕ → ℕ) → Bcache → ℕ → Type 0
Pinned dev r s b = (j : ℕ) × At s dev b j × (r j ≡ 1)

module _ (log : Log) (nz : log.dev ≢ 0) {V : ℕ → Block} {D : Disk} {r : ℕ → ℕ} {m : ℕ → Bool}
    {p : ℕ} {s : Bcache} (is : Is log.dev V D r no_lock m p s) (low : (i : ℕ) → r i ≤ 1) where
  write_log_one-Runs :
      (tail : ℕ)
      → Room r m
      → Pinned log.dev r s (log.block tail)
      → log.start + tail + 1 ≢ log.block tail
      → let lb = log.start + tail + 1 in
        let hb = log.block tail in
        Runs
          (λ _ t.
            Is log.dev (update V lb (V hb)) (update D lb (V hb)) r no_lock m (p - 1) t
            × KeepsHeld log.dev r s t)
          (λ d. (c : ℕ) → d c ≡ D c)
          (write_log_one log tail s)
  unfolding write_log_one copy_buf
  write_log_one-Runs tail room (pin, pin_at, pin_one) ne =
      bread_two-Both dev nz lb hb ne is low room
        (λ i t k. (
          pin,
          sym (is.members pin) ∙ pin_at.listed,
          inr (k hb pin pin_at (omega (arith, pin_one))),
        ))
        λ i j s₂ two.
          let bytes =
            bytes_of_view dev nz two.is hb j two.at_j (two.is.held_valid j (ground arith)) in
          let pinned : r j ≡ 1 =
            ap r (
              two.is.inv.unique dev hb j pin nz two.at_j
                (two.keeps hb pin pin_at (omega (arith, pin_one))))
            ∙ pin_one in
          let s₃ : Bcache = set_bytes i (s₂.buf j).bytes s₂ in
          let copied =
            set_bytes-Is dev nz two.is lb i two.at_i (s₂.buf j).bytes
              (two.is.held_valid i (ground (arith, two.differ))) (ground (arith, two.differ)) in
          let same = set_bytes-Keeps dev nz two.is lb i two.at_i (s₂.buf j).bytes in
          Runs-bind
            (Runs-mono
              (bwrite-Is dev nz copied lb i (same dev lb i two.at_i)
                (copied.held_valid i (ground (arith, two.differ))) (ground (arith, two.differ)))
              (λ a t q. q) (λ d q. q))
            λ _ s₄ w.
              Runs-mono
                (Runs-safe (
                  brelse_two-Is dev nz w.1 j i hb lb (λ e. two.differ (sym e))
                    (w.2 dev hb j (same dev hb j two.at_j)) (w.2 dev lb i (same dev lb i two.at_i))
                    (ground arith, ground arith)
                    (
                      ground (arith, low j, low i),
                      ground (arith, low j, low i),
                      ground (arith, two.differ, low j, low i),
                      ground (arith, two.differ, low j, low i),
                    )
                    (λ e. absurd (ground (arith, two.differ, pinned))) (λ e. ground arith)))
                (λ _ t q. (
                  Is-ext q.0 (λ c. ground (arith, bytes)) (λ c. ground (arith, bytes))
                      (λ k. ground (arith, two.differ)) (λ k. ground arith) refl,
                  λ c k a pos. q.1 dev c k (w.2 dev c k (same dev c k (two.keeps c k a pos))),
                ))
                (λ d q. q)
    where
      dev : ℕ
      dev = log.dev

      lb : ℕ
      lb = log.start + tail + 1

      hb : ℕ
      hb = log.block tail

-- What write_log has done with `left` rounds from `tail` on.
pub record Copied (log : Log) (V : ℕ → Block) (D : Disk) (r : ℕ → ℕ) (m : ℕ → Bool) (left tail : ℕ)
    (s t : Bcache) : Type 0 where
  pub reads : ℕ → Block
  pub disk : Disk
  pub power : ℕ
  pub is : Is log.dev reads disk r no_lock m power t
  pub entries :
      (k : ℕ)
      → tail ≤ k
      → k < tail + left
      → (reads (log.start + k + 1) ≡ V (log.block k)) × (disk (log.start + k + 1) ≡ V (log.block k))
  pub outside :
      (c : ℕ)
      → (c ≤ log.start + tail) ⊎ (log.start + tail + left < c)
      → (reads c ≡ V c) × (disk c ≡ D c)
  pub keeps : KeepsHeld log.dev r s t

module _ (log : Log) (nz : log.dev ≢ 0) where
  Copied-suc :
      {V : ℕ → Block} {D : Disk} {r : ℕ → ℕ} {m : ℕ → Bool} {left tail : ℕ} {s s₁ t : Bcache}
      → ((k : ℕ) → tail < k → k < tail + suc left → log.block k ≢ log.start + tail + 1)
      → KeepsHeld log.dev r s s₁
      → Copied log
          (update V (log.start + tail + 1) (V (log.block tail)))
          (update D (log.start + tail + 1) (V (log.block tail)))
          r
          m
          left
          (tail + 1)
          s₁
          t
      → Copied log V D r m (suc left) tail s t
  Copied-suc {left = left} {tail = tail} apart kept q = record {
    reads = q.reads;
    disk = q.disk;
    power = q.power;
    is = q.is;
    entries = λ k lo hi. elim (Bool-cases (k == tail)) [
      | inl e ↦ ground (arith, q.outside (log.start + tail + 1))
      | inr ne ↦ ground (arith, q.entries k, apart k)
    ];
    outside = λ c far. ground (arith, q.outside c);
    keeps = λ c j a pos. q.keeps c j (kept c j a pos) pos;
  }

  -- From a state where the blocks of the log are pinned, write_log copies what they read as to
  -- the log, and keeps the rest; a crash leaves all blocks but those of the log as they were.
  pub write_log_loop-Runs :
      (left tail : ℕ) {V : ℕ → Block} {D : Disk} {r : ℕ → ℕ} {m : ℕ → Bool} {p : ℕ} {s : Bcache}
      → Is log.dev V D r no_lock m p s
      → ((i : ℕ) → r i ≤ 1)
      → Room r m
      → ((k : ℕ)
          → tail ≤ k
          → k < tail + left
          → Pinned log.dev r s (log.block k) × (¬ InLog log.start (log.block k)))
      → tail + left ≤ log_blocks
      → Runs
          (λ _ t. Copied log V D r m left tail s t)
          (λ d. (c : ℕ) → (c ≤ log.start) ⊎ (log.start + log_blocks < c) → d c ≡ D c)
          (write_log_loop log left tail s)
  unfolding write_log_loop
  write_log_loop-Runs zero tail {V} {D} {r} {m} {p} {s} is low room pins few = returns (record {
    reads = V;
    disk = D;
    power = p;
    is = is;
    entries = λ k lo hi. absurd (omega arith);
    outside = λ c far. (refl, refl);
    keeps = λ c j a pos. a;
  })
  write_log_loop-Runs (suc left) tail {V} {D} {r} {m} {p} {s} is low room pins few =
      let pin = pins tail (omega arith) (omega arith) in
      Runs-bind
        (Runs-mono
          (write_log_one-Runs log nz is low tail room pin.0 (λ e. pin.1 (omega (arith, e))))
          (λ a t q. q) (λ d q c far. q c))
        λ _ s₁ one.
          Runs-mono
            (write_log_loop-Runs left (tail + 1) one.0 low room
              (λ k lo hi.
                let old = pins k (omega arith) (omega arith) in
                (
                  (old.0.0, one.1 (log.block k) old.0.0 old.0.1 (omega (arith, old.0.2)), old.0.2),
                  old.1,
                ))
              (omega arith))
            (λ _ t q.
              Copied-suc (λ k lo hi e. (pins k (omega arith) hi).1 (omega (arith, e))) one.1 q)
            (λ d q c far. q c far ∙ ground (arith, far))
