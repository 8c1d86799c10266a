-- ===== src/Kalloc/Owners.antt =====
-- Clients of the allocator: who owns which page, over any sequence of calls.
use os.Prelude.{
  ℕ, ◌+◌, ◌<◌, ◌≤◌, ◌≡◌, ◌≢◌, ◌⊎◌, inl, inr, refl, sym, ◌∙◌, List, [], ◌∷◌, arith, Bool, true,
  false, ◌==◌, if◌then◌else◌, update, Bool-cases, ==_iff,
}
use mathlib.Core.Path.{subst}
use os.Kernel.{ok}
use os.Kernel.Runs.{Runs, Runs-ok, Runs-mono}
use os.Str.{Memory}
use os.Kalloc.{Kmem, pgsize, phystop, kfree, kalloc, kinit}
use os.Kalloc.Chain.{NotIn, IsPage, SameOutside, Chain-frame}
use os.Kalloc.Calls.{Free, Allocated, no_memory, page, kfree-Free, kalloc-Allocated}
use os.Kalloc.Boot.{In, NotIn-of_not, kinit-Free}

-- the allocator, and the pages that some client holds
pub record Machine : Type 0 where
  pub kmem : Kmem
  pub owned : ℕ → Bool

-- A client allocates, frees a page that it holds, or writes to one.
pub data Step (end : ℕ) : Machine → Machine → Type 0 where
  allocates :
      {s t : Kmem} {owned : ℕ → Bool} (r : ℕ)
      → kalloc s ≡ ok (r, t)
      → Step end
          (record { kmem = s; owned = owned })
          (record { kmem = t; owned = if r == 0 then owned else update owned r true })
  frees :
      {s t : Kmem} {owned : ℕ → Bool} (pa : ℕ)
      → owned pa ≡ true
      → kfree end pa s ≡ ok (tt, t)
      → Step end
          (record { kmem = s; owned = owned })
          (record { kmem = t; owned = update owned pa false })
  writes :
      {s : Kmem} {owned : ℕ → Bool} (pa : ℕ) (m : Memory)
      → owned pa ≡ true
      → SameOutside pa s.mem m
      → Step end
          (record { kmem = s; owned = owned })
          (record { kmem = record s { mem = m }; owned = owned })

pub data Reach (end : ℕ) : Machine → Type 0 where
  boots :
      {t : Kmem} (mem : Memory)
      → 0 < end
      → end ≤ phystop
      → kinit end (record { freelist = 0; mem = mem }) ≡ ok (tt, t)
      → Reach end (record { kmem = t; owned = λ _. false })
  then_step : {s t : Machine} → Reach end s → Step end s t → Reach end t

-- Each page is free or owned, and none is both.
pub record Inv (end : ℕ) (m : Machine) : Type 0 where
  pub pages : List ℕ
  pub free : Free end m.kmem pages
  pub apart : (x : ℕ) → In x pages → m.owned x ≡ false
  pub genuine : (x : ℕ) → m.owned x ≡ true → IsPage end x
  pub kept : (x : ℕ) → IsPage end x → (m.owned x ≡ true) ⊎ In x pages

not_both : {end : ℕ} {m : Machine} (inv : Inv end m) (x : ℕ) → m.owned x ≡ true → NotIn x inv.pages
not_both inv x o = NotIn-of_not x inv.pages (λ i. cc (inv.apart x i, o))

NotIn-In : (a x : ℕ) (xs : List ℕ) → NotIn a xs → In x xs → x ≢ a
NotIn-In a x [] out i e = i
NotIn-In a x (y ∷ ys) out (inl i) e = out.0 (sym e ∙ i)
NotIn-In a x (y ∷ ys) out (inr i) e = NotIn-In a x ys out.1 i e

Allocated-Inv :
    {end : ℕ} {s t : Kmem} {owned : ℕ → Bool} {r : ℕ}
    (inv : Inv end (record { kmem = s; owned = owned }))
    → (pages : List ℕ) → pages ≡ inv.pages
    → Allocated end s pages r t
    → Inv end (record { kmem = t; owned = if r == 0 then owned else update owned r true })
Allocated-Inv inv pages e no_memory = inv
Allocated-Inv {owned = owned} inv pages e (page {x} {rest} pg new chain filled same) =
    let busy : (x == 0) ≡ false = ground (arith, pg.3) in
    rw busy (record {
      pages = rest;
      free = chain;
      apart = λ y i. ground (arith, NotIn-In x y rest new i, inv.apart y (subst (In y) e (inr i)));
      genuine = λ y o. elim (Bool-cases (y == x)) [
        | inl is ↦ rw ((==_iff y x).0 is) pg
        | inr ne ↦ inv.genuine y (ground arith)
      ];
      kept = λ y p. elim (inv.kept y p) [
        | inl o ↦ inl (ground arith)
        | inr i ↦ elim (subst (In y) (sym e) i) [ inl is ↦ inl (ground arith) | inr j ↦ inr j ]
      ];
    })

pub Step-Inv : {end : ℕ} {m n : Machine} → Step end m n → Inv end m → Inv end n
Step-Inv {end} (allocates {s} r e) inv =
    Allocated-Inv inv inv.pages refl
      (Runs-ok (subst (Runs _ _) e (kalloc-Allocated end s inv.pages inv.free)))
Step-Inv {end} (frees {s} {t} {owned} pa o e) inv =
    let q = Runs-ok (
      subst (Runs _ _) e
        (kfree-Free end pa s inv.pages inv.free (inv.genuine pa o) (not_both inv pa o))) in
    record {
      pages = pa ∷ inv.pages;
      free = q.0;
      apart = λ x i. elim i [ inl is ↦ ground arith | inr j ↦ ground (arith, inv.apart x j) ];
      genuine = λ x o'. inv.genuine x (ground arith);
      kept = λ x p. elim (Bool-cases (x == pa)) [
        | inl is ↦ inr (inl ((==_iff x pa).0 is))
        | inr ne ↦ elim (inv.kept x p) [ inl o' ↦ inl (ground arith) | inr j ↦ inr (inr j) ]
      ];
    }
Step-Inv (writes {s} {owned} pa m o same) inv = record {
  pages = inv.pages;
  free = Chain-frame pa inv.free (inv.genuine pa o).0 (not_both inv pa o) same;
  apart = inv.apart;
  genuine = inv.genuine;
  kept = inv.kept;
}

pub Reach-Inv : {end : ℕ} {m : Machine} → Reach end m → Inv end m
Reach-Inv {end} (boots mem pos le e) =
    let q = Runs-ok (subst (Runs _ _) e (kinit-Free end mem pos le)) in
    record {
      pages = q.0;
      free = q.1;
      apart = λ x i. refl;
      genuine = λ x o. cc o;
      kept = λ x p. inr ((q.2 x).1 p);
    }
Reach-Inv (then_step r st) = Step-Inv st (Reach-Inv r)

-- In every reachable state kalloc() returns: 0 only if every page is owned, and otherwise a page
-- that nobody owns, filled with fives, with every byte outside it as it was.
pub kalloc-new :
    {end : ℕ} (m : Machine)
    → Reach end m
    → Runs
        (λ r t.
          ((r ≡ 0) × (t ≡ m.kmem) × ((x : ℕ) → IsPage end x → m.owned x ≡ true))
          ⊎ (IsPage end r
              × (m.owned r ≡ false)
              × ((a : ℕ) → r ≤ a → a < r + pgsize → t.mem a ≡ 5)
              × SameOutside r m.kmem.mem t.mem))
        (λ d. ⊥)
        (kalloc m.kmem)
kalloc-new {end} m reach =
    let inv = Reach-Inv reach in
    Runs-mono (kalloc-Allocated end m.kmem inv.pages inv.free) (λ r t q. cases inv inv.pages refl q)
      (λ d q. q)
  where
    cases :
        {r : ℕ} {t : Kmem} (inv : Inv end m) (pages : List ℕ)
        → pages ≡ inv.pages
        → Allocated end m.kmem pages r t
        → ((r ≡ 0) × (t ≡ m.kmem) × ((x : ℕ) → IsPage end x → m.owned x ≡ true))
          ⊎ (IsPage end r
              × (m.owned r ≡ false)
              × ((a : ℕ) → r ≤ a → a < r + pgsize → t.mem a ≡ 5)
              × SameOutside r m.kmem.mem t.mem)
    cases inv pages e no_memory = inl (
      refl,
      refl,
      λ x p. elim (inv.kept x p) [ inl o ↦ o | inr i ↦ absurd (subst (In x) (sym e) i) ],
    )
    cases inv pages e (page {x} pg new chain filled same) =
        inr (pg, inv.apart x (subst (In x) e (inl refl)), filled, same)

-- In every reachable state kfree() of an owned page returns, and every byte outside it stays.
pub kfree-owned :
    {end : ℕ} (m : Machine) (pa : ℕ)
    → Reach end m
    → m.owned pa ≡ true
    → Runs (λ _ t. SameOutside pa m.kmem.mem t.mem) (λ d. ⊥) (kfree end pa m.kmem)
kfree-owned {end} m pa reach o =
    let inv = Reach-Inv reach in
    Runs-mono (kfree-Free end pa m.kmem inv.pages inv.free (inv.genuine pa o) (not_both inv pa o))
      (λ _ t q. q.1) (λ d q. q)
