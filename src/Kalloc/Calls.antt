-- ===== src/Kalloc/Calls.antt =====
-- kfree() and kalloc() against the list of free pages.
use os.Prelude.{
  ℕ, ◌+◌, ◌%◌, ◌<◌, ◌≤◌, ◌≡◌, sym, ◌∙◌, List, [], ◌∷◌, arith, false, ◌||◌, not, ◌==◌, ltb, leb,
}
use mathlib.Core.Path.{subst}
use os.Kernel.Runs.{Runs, returns}
use os.Str.{Memory, memset}
use os.Str.Move.{memset-filled}
use os.Kalloc.{Kmem, pgsize, phystop, load64, store64, kfree, kalloc}
use os.Kalloc.Words.{load64-store64_self, store64-out}
use os.Kalloc.Chain.{NotIn, IsPage, SameOutside, Chain, nil, cons, Chain-frame, Chain-bound}

abbrev pub Free : ℕ → Kmem → List ℕ → Type 0
Free end s xs = Chain end s.mem s.freelist xs

pub memset-SameOutside : (pa c : ℕ) (m : Memory) → SameOutside pa m (memset pa c pgsize m)
memset-SameOutside pa c m a out = memset-filled pa c pgsize m a ∙ ground (arith, out)

-- kfree() of a page that is not free returns, puts the page in front of the free list, and
-- changes no byte outside the page.
pub kfree-Free :
    (end pa : ℕ) (s : Kmem) (xs : List ℕ)
    → Free end s xs
    → IsPage end pa
    → NotIn pa xs
    → Runs (λ _ t. Free end t (pa ∷ xs) × SameOutside pa s.mem t.mem) (λ d. ⊥) (kfree end pa s)
unfolding kfree
kfree-Free end pa s xs free page new = rw (ok_page) (returns (cons page new next, same))
  where
    ok_page : (not (pa % pgsize == 0) || ltb pa end || leb phystop pa) ≡ false
    ok_page = ground (arith, page.0, page.1, page.2)

    m' : Memory
    m' = store64 pa s.freelist (memset pa 1 pgsize s.mem)

    same : SameOutside pa s.mem m'
    same a out =
        store64-out pa s.freelist (memset pa 1 pgsize s.mem) a (ground (arith, out))
        ∙ memset-SameOutside pa 1 s.mem a out

    next : Chain end m' (load64 m' pa) xs
    next =
        subst (λ n. Chain end m' n xs)
          (sym (
            load64-store64_self pa s.freelist (memset pa 1 pgsize s.mem)
              (omega (arith, Chain-bound free))))
          (Chain-frame pa free page.0 new same)

-- what kalloc() does with a free list
pub data Allocated (end : ℕ) (s : Kmem) : List ℕ → ℕ → Kmem → Type 0 where
  no_memory : Allocated end s [] 0 s
  page :
      {x : ℕ} {rest : List ℕ} {t : Kmem}
      → IsPage end x
      → NotIn x rest
      → Free end t rest
      → ((a : ℕ) → x ≤ a → a < x + pgsize → t.mem a ≡ 5)
      → SameOutside x s.mem t.mem
      → Allocated end s (x ∷ rest) x t

kalloc_from :
    {end : ℕ} {m : Memory} {p : ℕ} {xs : List ℕ}
    → Chain end m p xs
    → let s : Kmem = record { freelist = p; mem = m } in
      Runs (λ r t. Allocated end s xs r t) (λ d. ⊥) (kalloc s)
unfolding kalloc
kalloc_from nil = returns no_memory
kalloc_from {m = m} (cons {p} pg new rest) =
    let busy : (p == 0) ≡ false = ground (arith, pg.3) in
    rw busy (
      returns (
        page pg new (Chain-frame p rest pg.0 new (memset-SameOutside p 5 m))
          (λ a lo hi. memset-filled p 5 pgsize m a ∙ ground arith) (memset-SameOutside p 5 m)))

-- kalloc() returns 0 and changes nothing if no page is free. Otherwise it takes the first page off
-- the free list, fills it with fives, and changes no byte outside it.
pub kalloc-Allocated :
    (end : ℕ) (s : Kmem) (xs : List ℕ)
    → Free end s xs
    → Runs (λ r t. Allocated end s xs r t) (λ d. ⊥) (kalloc s)
kalloc-Allocated end s xs free = kalloc_from free
