-- ===== src/Bio/Find.antt =====
-- What the two walks over the buffer list find.
use os.Prelude.{
  ℕ, ◌≡◌, ◌≢◌, inl, inr, refl, Bool, true, false, none, some, List, [], ◌∷◌, arith, ◌==◌,
  if◌then◌else◌, Bool-cases,
}
use os.Bio.{nbuf, indices, Buf, is_block, find_block, find_unused, without}

unfoldable pub mem : ℕ → List ℕ → Bool
mem i [] = false
mem i (j ∷ js) = if i == j then true else mem i js

pub mem-cons_self : (i : ℕ) (js : List ℕ) → mem i (i ∷ js) ≡ true
unfolding mem
mem-cons_self i js = ground arith

pub find_block-some :
    (buf : ℕ → Buf) (dev blockno : ℕ) (os : List ℕ) (i : ℕ)
    → find_block buf dev blockno os ≡ some i
    → (mem i os ≡ true) × (is_block (buf i) dev blockno ≡ true)
unfolding find_block mem
find_block-some buf dev blockno [] i e = cc
find_block-some buf dev blockno (j ∷ os) i e = elim (Bool-cases (is_block (buf j) dev blockno)) [
  | inl here ↦ ground arith
  | inr not_here ↦ ground (arith, find_block-some buf dev blockno os i)
]

pub find_block-none :
    (buf : ℕ → Buf) (dev blockno : ℕ) (os : List ℕ) (i : ℕ)
    → find_block buf dev blockno os ≡ none
    → mem i os ≡ true
    → is_block (buf i) dev blockno ≡ false
unfolding find_block mem
find_block-none buf dev blockno [] i e m = cc
find_block-none buf dev blockno (j ∷ os) i e m = elim (Bool-cases (is_block (buf j) dev blockno)) [
  | inl here ↦ ground arith
  | inr not_here ↦ ground (arith, find_block-none buf dev blockno os i)
]

pub find_unused-some :
    (buf : ℕ → Buf) (os : List ℕ) (i : ℕ)
    → find_unused buf os ≡ some i
    → (mem i os ≡ true) × ((buf i).refcnt ≡ 0)
unfolding find_unused mem
find_unused-some buf [] i e = cc
find_unused-some buf (j ∷ os) i e = ground (arith, find_unused-some buf os i)

pub find_unused-ne-none :
    (buf : ℕ → Buf) (os : List ℕ) (i : ℕ)
    → mem i os ≡ true
    → (buf i).refcnt ≡ 0
    → find_unused buf os ≢ none
unfolding find_unused mem
find_unused-ne-none buf [] i m z e = cc
find_unused-ne-none buf (j ∷ os) i m z e = ground (arith, find_unused-ne-none buf os i)

-- All buffers in use: nothing to recycle.
pub find_unused-eq-none :
    (buf : ℕ → Buf) (os : List ℕ)
    → ((i : ℕ) → mem i os ≡ true → (buf i).refcnt ≢ 0)
    → find_unused buf os ≡ none
unfolding find_unused
find_unused-eq-none buf [] busy = refl
find_unused-eq-none buf (j ∷ os) busy =
    let rest = find_unused-eq-none buf os (λ i m. busy i (mem_later i m)) in
    ground (arith, rest, busy j (mem-cons_self j os))
  where
    mem_later : (i : ℕ) → mem i os ≡ true → mem i (j ∷ os) ≡ true
    mem_later i m = unfold mem in ground arith

-- Taking a buffer out of the list and putting it in front keeps the members.
mem-without : (i k : ℕ) (os : List ℕ) → i ≢ k → mem k (without i os) ≡ mem k os
unfolding mem without
mem-without i k [] ne = refl
mem-without i k (j ∷ os) ne = ground (arith, mem-without i k os)

pub mem-to_front : (i k : ℕ) (os : List ℕ) → mem i os ≡ true → mem k (i ∷ without i os) ≡ mem k os
unfolding mem
mem-to_front i k os m = ground (arith, mem-without i k os)

-- the first two buffers are in the list of binit()
pub mem-indices : (mem 0 (indices nbuf) ≡ true) × (mem 1 (indices nbuf) ≡ true)
unfolding indices mem
mem-indices = (refl, refl)
