-- ===== src/Kalloc/Chain.antt =====
-- The free list as a list of pages.
use os.Prelude.{ℕ, ◌+◌, ◌%◌, ◌<◌, ◌≤◌, ◌≡◌, ◌≢◌, ◌⊎◌, refl, sym, ap, List, [], ◌∷◌, arith}
use mathlib.Core.Path.{subst}
use os.Str.{Memory}
use os.Kalloc.{pgsize, phystop, load64}
use os.Kalloc.Words.{load64-ext}

abbrev pub NotIn : ℕ → List ℕ → Type 0
NotIn a [] = Unit {0}
NotIn a (x ∷ xs) = (a ≢ x) × NotIn a xs

-- a page of the memory that kalloc() hands out
abbrev pub IsPage : ℕ → ℕ → Type 0
IsPage end pa = (pa % pgsize ≡ 0) × (end ≤ pa) × (pa < phystop) × (0 < pa)

-- `m'` differs from `m` at most in the page `pa`
abbrev pub SameOutside : ℕ → Memory → Memory → Type 0
SameOutside pa m m' = (a : ℕ) → (a < pa) ⊎ (pa + pgsize ≤ a) → m' a ≡ m a

-- from `p` the words at the start of the pages lead through the distinct pages `xs` to 0
pub data Chain (end : ℕ) (m : Memory) : ℕ → List ℕ → Type 0 where
  nil : Chain end m 0 []
  cons :
      {p : ℕ} {xs : List ℕ}
      → IsPage end p
      → NotIn p xs
      → Chain end m (load64 m p) xs
      → Chain end m p (p ∷ xs)

-- there is one chain from an address on
pub Chain-unique :
    {end : ℕ} {m : Memory} {p : ℕ} {xs ys : List ℕ} → Chain end m p xs → Chain end m p ys → xs ≡ ys
Chain-unique nil nil = refl
Chain-unique nil (cons page new rest) = absurd (omega (arith, page.3))
Chain-unique (cons page new rest) nil = absurd (omega (arith, page.3))
Chain-unique (cons {p} page new rest) (cons page2 new2 rest2) =
    ap (λ l. p ∷ l) (Chain-unique rest rest2)

-- a write to a page that is not in the chain leaves the chain
pub Chain-frame :
    {end : ℕ} {m m' : Memory} {p : ℕ} (q : ℕ) {xs : List ℕ}
    → Chain end m p xs
    → q % pgsize ≡ 0
    → NotIn q xs
    → SameOutside q m m'
    → Chain end m' p xs
Chain-frame q nil al out same = nil
Chain-frame {end} {m} {m'} q (cons {p} {xs} page new rest) al out same = cons page new (
    subst (λ n. Chain end m' n xs)
      (sym (load64-ext m m' p (λ a lo hi. same a (omega (arith, page.0, out.0)))))
      (Chain-frame q rest al out.1 same))

pub Chain-nil : {end : ℕ} {m : Memory} {p : ℕ} → Chain end m p [] → p ≡ 0
Chain-nil nil = refl

pub Chain-bound : {end : ℕ} {m : Memory} {p : ℕ} {xs : List ℕ} → Chain end m p xs → p < phystop
Chain-bound nil = omega arith
Chain-bound (cons page new rest) = page.2
