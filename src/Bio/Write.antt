-- ===== src/Bio/Write.antt =====
-- bwrite(): a held buffer goes to the disk, or the power fails.
use os.Prelude.{
  ℕ, zero, suc, ◌-◌, ◌<◌, ◌≡◌, ◌≢◌, inl, inr, refl, sym, ◌∙◌, Bool, true, arith, update,
  Option-cases,
}
use os.Kernel.{Block, Disk}
use os.Kernel.Runs.{Runs, returns, crashes}
use os.Bio.{Bcache, is_block, bwrite, disk_write_at}
use os.Bio.Find.{mem}
use os.Bio.Cache.{At, find, At→find, view_of_none, view_of_some, blockno_of_At}
use os.Bio.Spec.{Is, Is-ext, Keeps}
use os.Bio.Hold.{bytes_of_view}

module _ (dev : ℕ) (nz : dev ≢ 0) {V : ℕ → Block} {D : Disk} {r : ℕ → ℕ} {l m : ℕ → Bool} {p : ℕ}
    {s : Bcache} (is : Is dev V D r l m p s) (b i : ℕ) (at : At s dev b i) where
  -- no other valid buffer has the block, on whatever device
  same_block :
      (j : ℕ) → mem j s.order ≡ true → (s.buf j).valid ≡ true → (s.buf j).blockno ≡ b → j ≡ i
  same_block j h v e =
      is.inv.unique dev b j i nz
        (record {
          listed = h;
          key = unfold is_block in ground (arith, is.device j (sym (is.members j) ∙ h) v, e);
        })
        at

  device_put-Is :
      (q : ℕ)
      → (s.buf i).valid ≡ true
      → Is dev V
          (update D b (V b))
          r
          l
          m
          q
          (record s { disk = update s.disk (s.buf i).blockno (s.buf i).bytes; power = q })
  device_put-Is q v = record {
    inv = record {
      unique = λ d c j k h at₁ at₂.
          is.inv.unique d c j k h (record { listed = at₁.listed; key = at₁.key })
            (record { listed = at₂.listed; key = at₂.key });
      clean = λ j h z w.
          ground (arith, same_block j h w, blockno_of_At dev b i at, is.inv.clean j h z w);
    };
    reads = λ c. elim (Option-cases (find s dev c)) [
      | inl e ↦
          view_of_none t dev c e
          ∙ ground (
            arith,
            At→find is.inv dev b i nz at,
            blockno_of_At dev b i at,
            view_of_none s dev c e,
            is.reads c,
          )
      | inr (j, e) ↦
          view_of_some t dev c j e
          ∙ ground (
            arith,
            At→find is.inv dev b i nz at,
            blockno_of_At dev b i at,
            view_of_some s dev c j e,
            is.reads c,
          )
    ];
    disk =
        λ c. ground (arith, is.disk c, blockno_of_At dev b i at, bytes_of_view dev nz is b i at v);
    refs = is.refs;
    locks = is.locks;
    members = is.members;
    power = refl;
    held_valid = is.held_valid;
    device = is.device;
  }
    where
      t : Bcache
      t = record s { disk = update s.disk (s.buf i).blockno (s.buf i).bytes; power = q }

  -- A held buffer goes to the disk, unless the power fails first.
  pub bwrite-Is :
      (s.buf i).valid ≡ true
      → l i ≡ true
      → Runs
          (λ _ t. (0 < p) × Is dev V (update D b (V b)) r l m (p - 1) t × Keeps s t)
          (λ d. (c : ℕ) → d c ≡ D c)
          (bwrite i s)
  unfolding bwrite
  bwrite-Is v held = simp (is.locks i ∙ held) (go s.power is.power)
    where
      go :
          (q : ℕ)
          → q ≡ p
          → Runs
              (λ _ t. (0 < p) × Is dev V (update D b (V b)) r l m (p - 1) t × Keeps s t)
              (λ d. (c : ℕ) → d c ≡ D c)
              (disk_write_at i s q)
      go zero e = crashes is.disk
      go (suc q) e = returns (
        omega arith,
        Is-ext (device_put-Is q v) (λ c. refl) (λ c. refl) (λ j. refl) (λ j. refl) (omega arith),
        λ d c j a. record { listed = a.listed; key = a.key },
      )
