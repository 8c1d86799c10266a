-- ===== src/Spin/Held.antt =====
-- The locks that a CPU holds, as a list without repetitions.
use os.Prelude.{
  ℕ, ◌+◌, ◌≡◌, inl, inr, refl, List, [], ◌∷◌, length, Bool, true, false, ◌||◌, ◌==◌, if◌then◌else◌,
  arith, Bool-cases, ==_iff,
}
use mathlib.Core.Path.{subst}

abbrev pub mem : ℕ → List ℕ → Bool
mem k [] = false
mem k (x ∷ xs) = x == k || mem k xs

abbrev pub remove : ℕ → List ℕ → List ℕ
remove k [] = []
remove k (x ∷ xs) = let rest = remove k xs in if x == k then rest else x ∷ rest

abbrev pub Distinct : List ℕ → Type 0
Distinct [] = Unit
Distinct (x ∷ xs) = (mem x xs ≡ false) × Distinct xs

pub mem-remove :
    (j k : ℕ) (xs : List ℕ) → mem j (remove k xs) ≡ (if j == k then false else mem j xs)
mem-remove j k [] = ground arith
mem-remove j k (x ∷ xs) = elim (Bool-cases (x == k)) [
  | inl e ↦ rw e (ground (arith, mem-remove j k xs))
  | inr e ↦ rw e (ground (arith, mem-remove j k xs))
]

remove-absent : (k : ℕ) (xs : List ℕ) → mem k xs ≡ false → remove k xs ≡ xs
remove-absent k [] e = refl
remove-absent k (x ∷ xs) e = elim (Bool-cases (x == k)) [
  | inl f ↦ absurd (ground arith)
  | inr f ↦ rw (f, remove-absent k xs (ground arith)) refl
]

pub length-remove :
    (k : ℕ) (xs : List ℕ) → Distinct xs → mem k xs ≡ true → length (remove k xs) + 1 ≡ length xs
length-remove k [] d e = ground arith
length-remove k (x ∷ xs) d e = elim (Bool-cases (x == k)) [
  | inl f ↦
      rw (f, remove-absent k xs (subst (λ y. mem y xs ≡ false) ((==_iff x k).0 f) d.0))
        (omega arith)
  | inr f ↦ rw f (ground (arith, length-remove k xs d.1))
]

pub remove-Distinct : (k : ℕ) (xs : List ℕ) → Distinct xs → Distinct (remove k xs)
remove-Distinct k [] d = tt
remove-Distinct k (x ∷ xs) d = elim (Bool-cases (x == k)) [
  | inl f ↦ rw f (remove-Distinct k xs d.1)
  | inr f ↦ rw f (ground (arith, mem-remove x k xs, d.0), remove-Distinct k xs d.1)
]
