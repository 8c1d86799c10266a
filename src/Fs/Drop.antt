-- ===== src/Fs/Drop.antt =====
-- Loops that free the blocks of an array of block numbers.
use os.Prelude.{
  ℕ, zero, suc, ◌+◌, ◌<◌, ◌≤◌, ◌≡◌, ◌≢◌, inl, inr, refl, sym, ap, ◌∙◌, Bool, false, not, ◌&&◌, ◌||◌,
  ◌==◌, if◌then◌else◌, arith, Bool-cases,
}
use mathlib.Core.Path.{subst}
use os.Kernel.Runs.{Runs, returns, Runs-bind, Runs-mono}
use os.Log.{word}
use os.Fs.{Fs, bblock, free_entries}
use os.Fs.Bits.{in_use}
use os.Fs.Alloc.{Freed, bfree-Freed}
use os.Fs.Slots.{Good}

-- `j` is one of f i, …, f (i + left - 1), and not 0
unfoldable pub listed : (ℕ → ℕ) → ℕ → ℕ → ℕ → Bool
listed f zero i j = false
listed f (suc left) i j = (not (f i == 0) && f i == j) || listed f left (i + 1) j

-- The block numbers of the range are of blocks in use, and distinct.
pub record Holds (s : Fs) (f : ℕ → ℕ) (i left : ℕ) : Type 0 where
  pub good : (k : ℕ) → i ≤ k → k < i + left → f k ≢ 0 → Good s (f k)
  pub distinct : (k l : ℕ) → i ≤ k → k < l → l < i + left → f k ≢ 0 → f k ≢ f l

-- Exactly the listed blocks have been freed.
pub record Dropped (s : Fs) (gone : ℕ → Bool) (t : Fs) : Type 0 where
  pub sb : t.sb ≡ s.sb
  pub bits : (j : ℕ) → in_use t j ≡ (if gone j then false else in_use s j)
  pub bytes : (m : ℕ) → ((j : ℕ) → j < s.sb.size → bblock j s.sb ≢ m) → t.disk m ≡ s.disk m

pub Dropped-refl : (s : Fs) → Dropped s (λ j. false) s
Dropped-refl s = record { sb = refl; bits = λ j. refl; bytes = λ m h. refl }

pub Dropped-trans :
    {s t u : Fs} {f g : ℕ → Bool} → Dropped s f t → Dropped t g u → Dropped s (λ j. f j || g j) u
Dropped-trans {s} {t} {u} {f} {g} p q = record {
  sb = q.sb ∙ p.sb;
  bits = λ j. ground (arith, q.bits j, p.bits j);
  bytes = λ m h.
      q.bytes m
        (λ j lt. subst (λ b. bblock j b ≢ m) (sym p.sb) (h j (subst (λ b. j < b.size) p.sb lt)))
      ∙ p.bytes m h;
}

pub Freed-Dropped : {s t : Fs} (n : ℕ) → n < s.sb.size → Freed s n t → Dropped s (λ j. n == j) t
Freed-Dropped n lt f = record {
  sb = f.sb;
  bits = λ j. ground (arith, f.bits j);
  bytes = λ m h. f.others m (h n lt);
}

pub Good-Dropped :
    {s t : Fs} {gone : ℕ → Bool} (a : ℕ) → Dropped s gone t → gone a ≡ false → Good s a → Good t a
Good-Dropped a d e g = record {
  within = subst (λ b. a < b.size) (sym d.sb) g.within;
  used = ground (arith, d.bits a, g.used);
  apart =
      λ j lt. subst (λ b. bblock j b ≢ a) (sym d.sb) (g.apart j (subst (λ b. j < b.size) d.sb lt));
}

pub Holds-next :
    {s t : Fs} {f : ℕ → ℕ} {i left : ℕ}
    → f i ≢ 0
    → Holds s f i (suc left)
    → Dropped s (λ j. f i == j) t
    → Holds t f (i + 1) left
Holds-next {s} {t} {f} {i} nz h d = record {
  good = λ k le lt kz.
      Good-Dropped (f k) d
        (ground (arith, h.distinct i k (omega arith) (omega arith) (omega arith) nz))
        (h.good k (omega arith) (omega arith) kz);
  distinct = λ k l le kl lt kz. h.distinct k l (omega arith) kl (omega arith) kz;
}

pub Holds-skip : {s : Fs} {f : ℕ → ℕ} {i left : ℕ} → Holds s f i (suc left) → Holds s f (i + 1) left
Holds-skip h = record {
  good = λ k le lt kz. h.good k (omega arith) (omega arith) kz;
  distinct = λ k l le kl lt kz. h.distinct k l (omega arith) kl (omega arith) kz;
}

pub same_gone : {s t : Fs} {f g : ℕ → Bool} → ((j : ℕ) → f j ≡ g j) → Dropped s f t → Dropped s g t
same_gone h d = record { sb = d.sb; bits = λ j. ground (arith, d.bits j, h j); bytes = d.bytes }

-- a block that is freed and then the rest
module _ {s t u : Fs} (f : ℕ → ℕ) (i left : ℕ) (nz : f i ≢ 0) (d : Dropped s (λ j. f i == j) t)
    (e : Dropped t (listed f left (i + 1)) u) where
  pub drop_one : Dropped s (listed f (suc left) i) u
  unfolding listed
  drop_one = same_gone (λ j. ground arith) (Dropped-trans d e)

pub skip_one :
    {s u : Fs} (f : ℕ → ℕ) (i left : ℕ)
    → f i ≡ 0
    → Dropped s (listed f left (i + 1)) u
    → Dropped s (listed f (suc left) i) u
unfolding listed
skip_one f i left z e = same_gone (λ j. ground arith) e

-- free_entries(): the words of the indirect block
pub free_entries-Dropped :
    (ind : ℕ) (f : ℕ → ℕ) (left i : ℕ) (s : Fs)
    → Holds s f i left
    → ((k : ℕ) → i ≤ k → k < i + left → word (s.disk ind) k ≡ f k)
    → ((j : ℕ) → j < s.sb.size → bblock j s.sb ≢ ind)
    → Runs
        (λ _ t. Dropped s (listed f left i) t × (t.ip ≡ s.ip))
        (λ d. ⊥)
        (free_entries ind left i s)
unfolding free_entries listed
free_entries-Dropped ind f zero i s h same apart = returns (Dropped-refl s, refl)
free_entries-Dropped ind f (suc left) i s h same apart =
    elim (Bool-cases (word (s.disk ind) i == 0)) [
      | inl e ↦ rw e (
          Runs-mono
            (free_entries-Dropped ind f left (i + 1) s (Holds-skip h)
              (λ k le lt. same k (omega arith) (omega arith)) apart)
            (λ _ t q. (skip_one f i left (ground (arith, same i)) q.0, q.1)) (λ d q. q))
      | inr e ↦
          let nz : f i ≢ 0 = ground (arith, same i) in
          let g = h.good i (omega arith) (omega arith) nz in
          let at = same i (omega arith) (omega arith) in
          rw (e, at)
            (Runs-bind (bfree-Freed s (f i) g.used) λ _ t fr.
              let d = Freed-Dropped (f i) g.within fr in
              Runs-mono
                (free_entries-Dropped ind f left (i + 1) t (Holds-next nz h d)
                  (λ k le lt.
                    ap (λ b. word b k) (d.bytes ind apart) ∙ same k (omega arith) (omega arith))
                  (λ j lt.
                    subst (λ b. bblock j b ≢ ind) (sym d.sb)
                      (apart j (subst (λ b. j < b.size) d.sb lt))))
                (λ _ u q. (drop_one f i left nz d q.0, q.1 ∙ fr.ip)) (λ d' q. q))
    ]
