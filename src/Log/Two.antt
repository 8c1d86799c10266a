-- ===== src/Log/Two.antt =====
-- Two buffers at once: the log's copy of a block and the block itself, held by bread() and given
-- back by brelse().
use mathlib.Core.Path.{subst}
use os.Prelude.{
  ℕ, ◌+◌, ◌-◌, ◌^◌, ◌<◌, ◌≤◌, ◌≡◌, ◌≢◌, ◌⊎◌, inl, inr, refl, Bool, true, false, arith, update,
}
use os.Kernel.{Block, Disk, Prog, and_then, ◌>>=◌}
use os.Kernel.Runs.{Runs, Runs-bind, Runs-mono, Runs-safe}
use os.Bio.{Bcache, bread, brelse}
use os.Bio.Cache.{At, At-block}
use os.Bio.Spec.{Is, Keeps}
use os.Bio.Give.{bread-Given}
use os.Bio.Release.{brelse-Is}

-- no buffer is locked
abbrev pub no_lock : ℕ → Bool
no_lock i = false

-- some buffer of the list has no reference
abbrev pub Room : (ℕ → ℕ) → (ℕ → Bool) → Type 0
Room r m = (f : ℕ) × (m f ≡ true) × (r f ≡ 0)

abbrev pub KeepsHeld : ℕ → (ℕ → ℕ) → Bcache → Bcache → Type 0
KeepsHeld dev r s t = (c j : ℕ) → At s dev c j → 0 < r j → At t dev c j

abbrev pub plus : (ℕ → ℕ) → ℕ → ℕ → ℕ
plus r i = update r i (r i + 1)

abbrev pub minus : (ℕ → ℕ) → ℕ → ℕ → ℕ
minus r i = update r i (r i - 1)

module _ (dev : ℕ) (nz : dev ≢ 0) (b c : ℕ) (ne : b ≢ c) where
  -- both buffers are held, `i` with block `b` and `j` with block `c`
  pub record Both (V : ℕ → Block) (D : Disk) (r : ℕ → ℕ) (m : ℕ → Bool) (p : ℕ) (s : Bcache)
      (i j : ℕ) (t : Bcache) : Type 0 where
    pub is : Is dev V D (plus (plus r i) j) (update (update no_lock i true) j true) m p t
    pub differ : i ≢ j
    pub at_i : At t dev b i
    pub at_j : At t dev c j
    pub unused_i : (r i ≡ 0) ⊎ At s dev b i
    pub keeps : KeepsHeld dev r s t

  module _ {V : ℕ → Block} {D : Disk} {r : ℕ → ℕ} {m : ℕ → Bool} {p : ℕ} {s : Bcache}
      (is : Is dev V D r no_lock m p s) (low : (i : ℕ) → r i ≤ 1) where
    pub bread_two-Both :
        {R : Unit {0} → Bcache → Type 0} {C : Disk → Type 0} {k : ℕ → ℕ → Prog Bcache (Unit {0})}
        → Room r m
        → ((i : ℕ) (t : Bcache)
            → KeepsHeld dev r s t
            → (f : ℕ) × (m f ≡ true) × ((plus r i f ≡ 0) ⊎ At t dev c f))
        → ((i j : ℕ) (t : Bcache) → Both V D r m p s i j t → Runs R C (k i j t))
        → Runs R C ((bread dev b >>= λ i. bread dev c >>= λ j. k i j) s)
    bread_two-Both room spare next =
        Runs-bind
          (Runs-safe (
            bread-Given dev nz is b (λ i a. (refl, omega (arith, low i))) (λ i z. refl)
              (room.0, room.1, inl room.2)))
          λ i s₁ g.
            Runs-bind
              (Runs-safe (
                bread-Given dev nz g.is c
                  (λ k a.
                    let e : k ≢ i =
                      (λ e. ne (At-block dev b c i g.at (subst (λ k. At s₁ dev c k) e a))) in
                    ground (arith, low k))
                  (λ k z. ground arith) (spare i s₁ g.keeps)))
              λ j s₂ h. next i j s₂ (record {
                is = h.is;
                differ = λ e. ground (arith, h.unlocked);
                at_i = h.keeps b i g.at (ground arith);
                at_j = h.at;
                unused_i = elim g.source [ inl a ↦ inr a | inr z ↦ inl z ];
                keeps = λ d k a pos. h.keeps d k (g.keeps d k a pos) (ground arith);
              })

-- brelse() twice
module _ (dev : ℕ) (nz : dev ≢ 0) {V : ℕ → Block} {D : Disk} {r : ℕ → ℕ} {l m : ℕ → Bool} {p : ℕ}
    {s : Bcache} (is : Is dev V D r l m p s) where
  pub brelse_two-Is :
      (i j b c : ℕ)
      → i ≢ j
      → At s dev b i
      → At s dev c j
      → (l i ≡ true) × (l j ≡ true)
      → (0 < r i) × (r i < 2 ^ 32) × (0 < r j) × (r j < 2 ^ 32)
      → (r i ≡ 1 → V b ≡ D b)
      → (r j ≡ 1 → V c ≡ D c)
      → Runs
          (λ _ t.
            Is dev V D (minus (minus r i) j) (update (update l i false) j false) m p t × Keeps s t)
          (λ _. ⊥)
          (and_then (brelse i s) (λ _. brelse j))
  brelse_two-Is i j b c ne at_i at_j held few clean_b clean_c =
      Runs-bind (brelse-Is dev nz is b i at_i held.0 few.0 few.1 clean_b) λ _ s₁ g.
        Runs-mono
          (brelse-Is dev nz g.0 c j (g.1 dev c j at_j) (ground arith) (ground arith) (ground arith)
            (λ e. clean_c (ground arith)))
          (λ _ t h. (h.0, λ d k x a. h.1 d k x (g.1 d k x a))) (λ _ x. x)
