-- ===== src/Log/Install.antt =====
-- install_trans(): the blocks of the log go to their home locations.
use os.Prelude.{
  ℕ, ◌+◌, ◌-◌, ◌<◌, ◌≤◌, ◌≡◌, ◌≢◌, inl, inr, refl, sym, ap, ◌∙◌, Bool, true, false, arith, ◌==◌,
  update, Bool-cases, ==_iff,
}
use mathlib.Core.Path.{subst}
use os.Kernel.{Block, Disk}
use os.Kernel.Runs.{Runs, Runs-bind, Runs-mono, Runs-safe}
use os.Bio.{Bcache}
use os.Bio.Cache.{At, At-block}
use os.Bio.Spec.{Is, Is-ext}
use os.Bio.Hold.{set_bytes-Is, set_bytes-Keeps, bytes_of_view, bunpin-Is}
use os.Bio.Write.{bwrite-Is}
use os.Log.Two.{no_lock, Room, KeepsHeld, minus, bread_two-Both, brelse_two-Is}
use os.Log.Copy.{Pinned}
use os.Log.{Log, install_one, copy_buf}

-- two buffers of the list have no reference
abbrev pub Room2 : (ℕ → ℕ) → (ℕ → Bool) → Type 0
Room2 r m = (f : ℕ) × (g : ℕ) × (f ≢ g) × ((m f ≡ true) × (m g ≡ true)) × ((r f ≡ 0) × (r g ≡ 0))

-- What install_trans needs for the block: in a commit the pin; in recovery a second free buffer.
abbrev pub Spare : Bool → ℕ → (ℕ → ℕ) → (ℕ → Bool) → Bcache → ℕ → Type 0
Spare true dev r m s b = Room2 r m
Spare false dev r m s b = Pinned dev r s b

module _ (log : Log) (nz : log.dev ≢ 0) {V : ℕ → Block} {D : Disk} {r : ℕ → ℕ} {m : ℕ → Bool}
    {p : ℕ} {s : Bcache} (is : Is log.dev V D r no_lock m p s) (low : (i : ℕ) → r i ≤ 1)
    (tail : ℕ) where
  -- After the round: the references of the block's buffer went down in a commit.
  pub record Moved (recovering : Bool) (t : Bcache) : Type 0 where
    pub refs : ℕ → ℕ
    pub state :
        Is log.dev
          (update V (log.block tail) (V (log.start + tail + 1)))
          (update D (log.block tail) (V (log.start + tail + 1)))
          refs
          no_lock
          m
          (p - 1)
          t
    pub refs-le : (k : ℕ) → refs k ≤ r k
    pub keeps : KeepsHeld log.dev refs s t
    pub recovered : recovering ≡ true → (k : ℕ) → refs k ≡ r k
    pub other_pins :
        recovering ≡ false
        → (c k : ℕ) → c ≢ log.block tail
        → At s log.dev c k
        → 0 < r k
        → refs k ≡ r k

  pub install_one-recover :
      Room2 r m
      → log.start + tail + 1 ≢ log.block tail
      → V (log.start + tail + 1) ≡ D (log.start + tail + 1)
      → Runs (λ _ t. Moved true t) (λ d. (c : ℕ) → d c ≡ D c) (install_one log true tail s)
  unfolding install_one copy_buf
  install_one-recover (f, g, ne_fg, members, free) ne clean =
      bread_two-Both dev nz lb hb ne is low (f, members.0, free.0)
        (λ i t k. elim (Bool-cases (f == i)) [
          | inl e ↦ (g, members.1, inl (ground (arith, ne_fg)))
          | inr ne ↦ (f, members.0, inl (ground arith))
        ])
        λ i j s₂ two.
          let bytes =
            bytes_of_view dev nz two.is lb i two.at_i
              (two.is.held_valid i (ground (arith, two.differ))) in
          let copied =
            set_bytes-Is dev nz two.is hb j two.at_j (s₂.buf i).bytes
              (two.is.held_valid j (ground arith)) (ground arith) in
          let same = set_bytes-Keeps dev nz two.is hb j two.at_j (s₂.buf i).bytes in
          Runs-bind
            (Runs-mono
              (bwrite-Is dev nz copied hb j (same dev hb j two.at_j)
                (copied.held_valid j (ground arith)) (ground arith))
              (λ a t q. q) (λ d q. q))
            λ _ s₄ w.
              Runs-mono
                (Runs-safe (
                  brelse_two-Is dev nz w.1 i j lb hb two.differ
                    (w.2 dev lb i (same dev lb i two.at_i)) (w.2 dev hb j (same dev hb j two.at_j))
                    (ground (arith, two.differ), ground arith)
                    (
                      ground (arith, two.differ, low i),
                      ground (arith, two.differ, low i),
                      ground (arith, two.differ, low j),
                      ground (arith, two.differ, low j),
                    )
                    (λ e. ground (arith, clean)) (λ e. ground arith)))
                (λ _ t q. record {
                  refs = r;
                  state =
                      Is-ext q.0 (λ c. ground (arith, bytes)) (λ c. ground (arith, bytes))
                        (λ k. ground (arith, two.differ)) (λ k. ground arith) refl;
                  refs-le = λ k. omega arith;
                  keeps =
                      λ c k a pos. q.1 dev c k (w.2 dev c k (same dev c k (two.keeps c k a pos)));
                  recovered = λ _ k. refl;
                  other_pins = λ e. absurd (cc e);
                })
                (λ d q. q)
    where
      dev : ℕ
      dev = log.dev

      lb : ℕ
      lb = log.start + tail + 1

      hb : ℕ
      hb = log.block tail

  pub install_one-commit :
      Room r m
      → Pinned log.dev r s (log.block tail)
      → log.start + tail + 1 ≢ log.block tail
      → V (log.start + tail + 1) ≡ D (log.start + tail + 1)
      → Runs (λ _ t. Moved false t) (λ d. (c : ℕ) → d c ≡ D c) (install_one log false tail s)
  unfolding install_one copy_buf
  install_one-commit room (pin, pin_at, pin_one) ne clean =
      bread_two-Both dev nz lb hb ne is low room
        (λ i t k. (
          pin,
          sym (is.members pin) ∙ pin_at.listed,
          inr (k hb pin pin_at (omega (arith, pin_one))),
        ))
        λ i j s₂ two.
          let bytes =
            bytes_of_view dev nz two.is lb i two.at_i
              (two.is.held_valid i (ground (arith, two.differ))) in
          let pinned : r j ≡ 1 =
            ap r (
              two.is.inv.unique dev hb j pin nz two.at_j
                (two.keeps hb pin pin_at (omega (arith, pin_one))))
            ∙ pin_one in
          let copied =
            set_bytes-Is dev nz two.is hb j two.at_j (s₂.buf i).bytes
              (two.is.held_valid j (ground arith)) (ground arith) in
          let same = set_bytes-Keeps dev nz two.is hb j two.at_j (s₂.buf i).bytes in
          Runs-bind
            (Runs-mono
              (bwrite-Is dev nz copied hb j (same dev hb j two.at_j)
                (copied.held_valid j (ground arith)) (ground arith))
              (λ a t q. q) (λ d q. q))
            λ _ s₄ w.
              Runs-bind
                (Runs-safe (
                  bunpin-Is dev nz w.1 hb j (w.2 dev hb j (same dev hb j two.at_j))
                    (ground (arith, two.differ, pinned)) (ground (arith, two.differ, pinned))))
                λ _ s₅ u.
                  Runs-mono
                    (Runs-safe (
                      brelse_two-Is dev nz u.0 i j lb hb two.differ
                        (u.1 dev lb i (w.2 dev lb i (same dev lb i two.at_i)))
                        (u.1 dev hb j (w.2 dev hb j (same dev hb j two.at_j)))
                        (ground (arith, two.differ), ground arith)
                        (
                          ground (arith, two.differ, low i),
                          ground (arith, two.differ, low i),
                          ground (arith, two.differ, pinned),
                          ground (arith, two.differ, pinned),
                        )
                        (λ e. ground (arith, clean)) (λ e. ground arith)))
                    (λ _ t q. record {
                      refs = minus r j;
                      state =
                          Is-ext q.0 (λ c. ground (arith, bytes)) (λ c. ground (arith, bytes))
                            (λ k. ground (arith, two.differ)) (λ k. ground arith) refl;
                      refs-le = λ k. ground arith;
                      keeps = λ c k a pos. q.1 dev c k (
                          u.1 dev c k
                            (w.2 dev c k (same dev c k (two.keeps c k a (ground arith)))));
                      recovered = λ e. absurd (cc e);
                      other_pins = λ _ c k ne_c a pos. elim (Bool-cases (k == j)) [
                        | inl e ↦ absurd (
                            ne_c (
                              At-block dev c hb j
                                (subst (λ x. At s₂ dev c x) ((==_iff k j).0 e)
                                  (two.keeps c k a pos))
                                two.at_j))
                        | inr ne ↦ ground arith
                      ];
                    })
                    (λ d q. q)
    where
      dev : ℕ
      dev = log.dev

      lb : ℕ
      lb = log.start + tail + 1

      hb : ℕ
      hb = log.block tail
