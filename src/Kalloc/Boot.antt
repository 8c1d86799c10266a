-- ===== src/Kalloc/Boot.antt =====
-- kinit(): the free list after boot.
use os.Prelude.{
  ℕ, zero, suc, ◌+◌, ◌*◌, ◌/◌, ◌%◌, ◌<◌, ◌≤◌, ◌≡◌, ◌⊎◌, ◌↔◌, inl, inr, refl, List, [], ◌∷◌, arith,
  leb, Bool-cases,
}
use native.Mathlib.Decide.{ℕ_discrete}
use os.Kernel.Runs.{Runs, returns, Runs-bind, Runs-mono}
use os.Str.{Memory}
use os.Kalloc.{Kmem, pgsize, phystop, pgroundup, kfree, free_loop, freerange, kinit}
use os.Kalloc.Chain.{NotIn, IsPage, nil}
use os.Kalloc.Calls.{Free, kfree-Free}

abbrev pub In : ℕ → List ℕ → Type 0
In a [] = ⊥
In a (x ∷ xs) = (a ≡ x) ⊎ In a xs

pub NotIn-of_not : (a : ℕ) (xs : List ℕ) → (In a xs → ⊥) → NotIn a xs
NotIn-of_not a [] h = tt
NotIn-of_not a (x ∷ xs) h = (λ e. h (inl e), NotIn-of_not a xs (λ i. h (inr i)))

-- the free pages are those below `p`
abbrev pub FreeBelow : ℕ → ℕ → Kmem → Type 0
FreeBelow end p s = (xs : List ℕ) × Free end s xs × ((x : ℕ) → In x xs ↔ (IsPage end x × (x < p)))

free_one :
    {end p : ℕ} {s : Kmem}
    → IsPage end p
    → FreeBelow end p s
    → Runs (λ _ t. FreeBelow end (p + pgsize) t) (λ d. ⊥) (kfree end p s)
free_one {end} {p} {s} page (xs, free, only) =
    Runs-mono
      (kfree-Free end p s xs free page (NotIn-of_not p xs (λ i. omega (arith, ((only p).0 i).1))))
      (λ _ t q. (
        p ∷ xs,
        q.0,
        λ x. (
          λ i. elim i [
            | inl e ↦ rw e (page, omega arith)
            | inr j ↦ (((only x).0 j).0, omega (arith, ((only x).0 j).1))
          ],
          λ both. elim (ℕ_discrete x p) [
            | yes e ↦ inl e
            | no ne ↦ inr ((only x).1 (both.0, omega (arith, both.0.0, both.1, page.0, ne)))
          ],
        ),
      ))
      (λ d q. q)

free_loop-FreeBelow :
    (end fuel p pa_end : ℕ) (s : Kmem)
    → p % pgsize ≡ 0
    → end ≤ p
    → 0 < p
    → pa_end % pgsize ≡ 0
    → pa_end ≤ phystop
    → p ≤ pa_end
    → pa_end < p + fuel * pgsize
    → FreeBelow end p s
    → Runs (λ _ t. FreeBelow end pa_end t) (λ d. ⊥) (free_loop end fuel p pa_end s)
unfolding free_loop
free_loop-FreeBelow end zero p pa_end s al lo pos al' top le enough free =
    absurd (omega (arith, enough, le))
free_loop-FreeBelow end (suc fuel) p pa_end s al lo pos al' top le enough free =
    elim (Bool-cases (leb (p + pgsize) pa_end)) [
      | inl more ↦ rw more (
          Runs-bind (free_one (al, lo, ground (arith, top), pos) free) λ _ t below.
            free_loop-FreeBelow end fuel (p + pgsize) pa_end t (omega (arith, al))
              (omega (arith, lo)) (omega arith) al' top (ground arith) (omega (arith, enough))
              below)
      | inr last ↦
          let here : p ≡ pa_end = ground (arith, al, al', le) in rw last (returns (rw here at free))
    ]

-- After kinit() the free list holds each page from the end of the kernel to PHYSTOP, and no other;
-- `Free` says that it holds a page once.
pub kinit-Free :
    (end : ℕ) (mem : Memory)
    → 0 < end
    → end ≤ phystop
    → Runs
        (λ _ t. (xs : List ℕ) × Free end t xs × ((x : ℕ) → In x xs ↔ IsPage end x))
        (λ d. ⊥)
        (kinit end (record { freelist = 0; mem = mem }))
unfolding kinit freerange
kinit-Free end mem pos le =
    Runs-mono
      (free_loop-FreeBelow end (suc (phystop / pgsize)) (pgroundup end) phystop _ (omega arith)
        (omega arith) (omega arith) refl (omega arith) (omega arith) (omega arith)
        ([], nil, λ x. (λ i. absurd i, λ both. absurd (omega (arith, both.0.0, both.0.1, both.1)))))
      (λ _ t q. (q.0, q.1, λ x. (λ i. ((q.2 x).0 i).0, λ page. (q.2 x).1 (page, page.2))))
      (λ d q. q)
