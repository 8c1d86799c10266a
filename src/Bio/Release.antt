-- ===== src/Bio/Release.antt =====
-- brelse(): the buffer is unlocked, and without a reference goes to the front of the list.
use os.Prelude.{
  ℕ, ◌+◌, ◌-◌, ◌^◌, ◌<◌, ◌≡◌, ◌≢◌, inl, inr, refl, sym, ◌∙◌, Bool, true, false, ◌∷◌, arith, ◌==◌,
  update, u32, Bool-cases, Option-cases,
}
use os.Kernel.{Block, Disk}
use os.Kernel.Runs.{Runs, returns}
use os.Bio.{without, Buf, Bcache, set_buf, brelse}
use os.Bio.Find.{mem, mem-to_front}
use os.Bio.Cache.{
  At, Inv, find, find→At, At→find, view_of_At, view_of_none, view_of_some, none_of_no_At,
}
use os.Bio.Spec.{Is, Is-ext, Keeps}
use mathlib.Core.Bool.{false≢true}
use os.Bio.Hold.{touch-Is}

reorder-Is :
    {dev : ℕ}
    → dev ≢ 0
    → {V : ℕ → Block} {D : Disk} {r : ℕ → ℕ} {l m : ℕ → Bool} {p : ℕ} {s : Bcache}
    → Is dev V D r l m p s
    → (i : ℕ) → mem i s.order ≡ true
    → let t = record s { order = i ∷ without i s.order } in Is dev V D r l m p t × Keeps s t
reorder-Is {dev} nz {s = s} is i listed = (
  record {
    inv = inv';
    reads = λ c. elim (Option-cases (find s dev c)) [
      | inl e ↦
          view_of_none t dev c
            (none_of_no_At t dev c (λ j a. cc (At→find is.inv dev c j nz (back dev c j a))))
          ∙ sym (view_of_none s dev c e)
          ∙ is.reads c
      | inr (j, e) ↦
          view_of_At inv' dev c j nz (keeps dev c j (find→At dev c j e))
          ∙ sym (view_of_some s dev c j e)
          ∙ is.reads c
    ];
    disk = is.disk;
    refs = is.refs;
    locks = is.locks;
    members = λ j. mem-to_front i j s.order listed ∙ is.members j;
    power = is.power;
    held_valid = is.held_valid;
    device = is.device;
  },
  keeps,
)
  where
    t : Bcache
    t = record s { order = i ∷ without i s.order }

    keeps : Keeps s t
    keeps d c j a = record { listed = mem-to_front i j s.order listed ∙ a.listed; key = a.key }

    back : Keeps t s
    back d c j a = record { listed = sym (mem-to_front i j s.order listed) ∙ a.listed; key = a.key }

    inv' : Inv t
    inv' = record {
      unique = λ d c j k h p q. is.inv.unique d c j k h (back d c j p) (back d c k q);
      clean = λ j h. is.inv.clean j (sym (mem-to_front i j s.order listed) ∙ h);
    }

module _ (dev : ℕ) (nz : dev ≢ 0) {V : ℕ → Block} {D : Disk} {r : ℕ → ℕ} {l m : ℕ → Bool} {p : ℕ}
    {s : Bcache} (is : Is dev V D r l m p s) (b i : ℕ) (at : At s dev b i) where
  pub brelse-Is :
      l i ≡ true
      → 0 < r i
      → r i < 2 ^ 32
      → (r i ≡ 1 → V b ≡ D b)
      → Runs
          (λ _ t. Is dev V D (update r i (r i - 1)) (update l i false) m p t × Keeps s t)
          (λ _. ⊥)
          (brelse i s)
  unfolding brelse
  brelse-Is held some_ref small clean =
      simp (is.locks i ∙ held) (elim (Bool-cases (x.refcnt == 0)) [
        | inl z ↦ simp z (returns front)
        | inr nz ↦ simp nz (returns plain)
      ])
    where
      x : Buf
      x = record (s.buf i) { locked = false; refcnt = u32 ((s.buf i).refcnt + 2 ^ 32 - 1) }

      left : x.refcnt ≡ r i - 1
      left = omega (arith, is.refs i)

      touched :
          Is dev V D (update r i x.refcnt) (update l i false) m p (set_buf s i x)
          × Keeps s (set_buf s i x)
      touched =
          touch-Is dev nz is b i at x refl refl refl refl
            (λ (z : x.refcnt ≡ 0). clean (omega (arith, left))) (λ h. absurd (false≢true h))

      plain :
          Is dev V D (update r i (r i - 1)) (update l i false) m p (set_buf s i x)
          × Keeps s (set_buf s i x)
      plain = (
        Is-ext touched.0 (λ c. refl) (λ c. refl) (λ j. ground (arith, left)) (λ j. refl) refl,
        touched.1,
      )

      front :
          let t = record (set_buf s i x) { order = i ∷ without i s.order } in
          Is dev V D (update r i (r i - 1)) (update l i false) m p t × Keeps s t
      front =
          unfold set_buf in
          let moved = reorder-Is nz plain.0 i at.listed in
          (moved.0, λ d c j a. moved.1 d c j (plain.1 d c j a))
