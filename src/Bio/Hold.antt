-- ===== src/Bio/Hold.antt =====
-- The operations on a buffer that the caller holds: changing its bytes, bwrite, brelse, bunpin.
use os.Prelude.{
  ℕ, ◌+◌, ◌-◌, ◌^◌, ◌<◌, ◌≡◌, ◌≢◌, inl, inr, refl, sym, ap, ◌∙◌, Bool, true, false, arith, ◌==◌,
  update, u32, Bool-cases, ==_iff,
}
use os.Kernel.{Block, Disk}
use os.Kernel.Runs.{Runs, returns}
use os.Bio.{Buf, Bcache, set_buf, is_block, bunpin}
use os.Bio.Cache.{At, Inv, view_of_At, blockno_of_At}
use os.Bio.Change.{Fits, set_buf-Inv, view-set_buf, buf-set_buf_self, At-set_buf_self}
use os.Bio.Spec.{Is, Is-ext, Keeps, rewrite-Keeps, rewrite-Fits, rewrite-view}

-- the bytes of a held buffer change: memmove into bp->data
unfoldable pub set_bytes : ℕ → Block → Bcache → Bcache
set_bytes i bytes s = set_buf s i (record (s.buf i) { bytes = bytes })

module _ (dev : ℕ) (nz : dev ≢ 0) {V : ℕ → Block} {D : Disk} {r : ℕ → ℕ} {l m : ℕ → Bool} {p : ℕ}
    {s : Bcache} (is : Is dev V D r l m p s) (b i : ℕ) (at : At s dev b i) where
  -- writing the bytes of a referenced, valid buffer changes what its block reads as
  pub set_bytes-Is :
      (bytes : Block)
      → (s.buf i).valid ≡ true
      → 0 < r i
      → Is dev (update V b bytes) D r l m p (set_bytes i bytes s)
  unfolding set_bytes is_block
  set_bytes-Is bytes v held = record {
    inv = set_buf-Inv is.inv i x fits;
    reads = λ c. elim (Bool-cases (c == b)) [
      | inl e ↦ rw e (
          let e' : c ≡ b = (==_iff c b).0 e in
          view_of_At inv' dev c i nz
            (At-set_buf_self s i x dev c at.listed (unfold is_block in rw e' at.key))
          ∙ rw (buf-set_buf_self s i x) (simp v))
      | inr ne ↦ rw ne (
          view-set_buf is.inv i x fits dev c nz (λ k. absurd (other c ne (unfold is_block in k)))
            (λ k at'. absurd (other c ne at'.key))
          ∙ is.reads c)
    ];
    disk = unfold set_buf in is.disk;
    refs = unfold set_buf in λ j. ground (arith, is.refs j, is.refs i);
    locks = unfold set_buf in λ j. ground (arith, is.locks j);
    members = unfold set_buf in is.members;
    power = unfold set_buf in is.power;
    held_valid = unfold set_buf in λ j. ground (arith, is.held_valid j);
    device = unfold set_buf in λ j. ground (arith, is.device j);
  }
    where
      x : Buf
      x = record (s.buf i) { bytes = bytes }

      other : (c : ℕ) → (c == b) ≡ false → is_block x dev c ≡ true → ⊥
      other c ne k = unfold is_block in ground (arith, k, at.key)

      fits : Fits s i x
      fits = rewrite-Fits is.inv i x at.listed refl refl (λ z _. absurd (omega (arith, is.refs i)))

      inv' : Inv (set_buf s i x)
      inv' = set_buf-Inv is.inv i x fits

  pub bytes_of_view : (s.buf i).valid ≡ true → (s.buf i).bytes ≡ V b
  bytes_of_view v = sym (view_of_At is.inv dev b i nz at ∙ simp v) ∙ is.reads b

  -- Only the references and the lock of the buffer change; without a reference it is clean.
  module _ (x : Buf) (d : x.dev ≡ (s.buf i).dev) (n : x.blockno ≡ (s.buf i).blockno)
      (v : x.valid ≡ (s.buf i).valid) (e : x.bytes ≡ (s.buf i).bytes) where
    pub touch-Is :
        (x.refcnt ≡ 0 → V b ≡ D b)
        → (x.locked ≡ true → (s.buf i).valid ≡ true)
        → Is dev V D (update r i x.refcnt) (update l i x.locked) m p (set_buf s i x)
          × Keeps s (set_buf s i x)
    touch-Is clean has = (
      record {
        inv = set_buf-Inv is.inv i x fits;
        reads = λ c. rewrite-view is.inv i x at.listed d n fits v e dev c nz ∙ is.reads c;
        disk = unfold set_buf in is.disk;
        refs = unfold set_buf in λ j. ground (arith, is.refs j);
        locks = unfold set_buf in λ j. ground (arith, is.locks j);
        members = unfold set_buf in is.members;
        power = unfold set_buf in is.power;
        held_valid = unfold set_buf in λ j. ground (arith, is.held_valid j);
        device = unfold set_buf in λ j. ground (arith, is.device j);
      },
      rewrite-Keeps is.inv i x at.listed d n,
    )
      where
        fits : Fits s i x
        fits = rewrite-Fits is.inv i x at.listed d n (λ z w.
            e
            ∙ bytes_of_view (sym v ∙ w)
            ∙ clean z
            ∙ sym (is.disk b)
            ∙ ap s.disk (sym (n ∙ blockno_of_At dev b i at)))

  pub bunpin-Is :
      1 < r i
      → r i < 2 ^ 32
      → Runs (λ _ t. Is dev V D (update r i (r i - 1)) l m p t × Keeps s t) (λ _. ⊥) (bunpin i s)
  unfolding bunpin
  bunpin-Is many small =
      let x : Buf = record (s.buf i) { refcnt = u32 ((s.buf i).refcnt + 2 ^ 32 - 1) } in
      let left : x.refcnt ≡ r i - 1 = omega (arith, is.refs i) in
      let t =
        touch-Is x refl refl refl refl (λ (z : x.refcnt ≡ 0). absurd (omega (arith, left)))
          (λ h. is.held_valid i (sym (is.locks i) ∙ h)) in
      returns (
        Is-ext t.0 (λ c. refl) (λ c. refl) (λ j. ground (arith, left))
            (λ j. ground (arith, is.locks i, is.locks j)) refl,
        t.1,
      )

  pub set_bytes-Keeps : (bytes : Block) → Keeps s (set_bytes i bytes s)
  unfolding set_bytes
  set_bytes-Keeps bytes =
      rewrite-Keeps is.inv i (record (s.buf i) { bytes = bytes }) at.listed refl refl
