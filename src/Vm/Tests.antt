-- ===== src/Vm/Tests.antt =====
-- A page table at 4096 with no entry, beside two free pages.
use os.Prelude.{
  ℕ, ◌+◌, ◌-◌, ◌*◌, ◌/◌, ◌%◌, ◌^◌, ◌<◌, ◌≤◌, ◌≡◌, ◌≢◌, ◌⊎◌, inl, inr, refl, sym, ap, ◌∙◌, false, [],
  ◌∷◌, update, arith,
}
use mathlib.Core.Path.{subst}
use os.Kernel.{ok}
use os.Kernel.Runs.{Runs}
use os.Str.{Memory}
use os.Kalloc.{Kmem, load64, store64}
use os.Kalloc.Chain.{Chain, nil, cons}
use os.Kalloc.Words.{load64-store64_self, load64-zero, load64-ext, store64-out}
use os.Vm.{is_valid, mappages, walkaddr}
use os.Vm.Walk.{find, value}
use os.Vm.Tree.{Labels}
use os.Vm.Space.{Space, page_of}
use os.Vm.Space.Map.{mappages-walkaddr}
use os.Vm.Space.Maps.{Maps}

abbrev memory : Memory
memory = store64 8192 12288 (λ _. 0)

memory-zero : (p : ℕ) → (p + 8 ≤ 8192) ⊎ (8200 ≤ p) → load64 memory p ≡ 0
memory-zero p out =
    load64-ext (λ _. 0) memory p
      (λ a lo hi. store64-out 8192 12288 (λ _. 0) a (ground (arith, out)))
    ∙ load64-zero p

abbrev machine : Kmem
machine = record { freelist = 8192; mem = memory }

abbrev only_root : Labels
only_root = record { level = update (λ _. 0) 4096 3; prefix = λ _. 0 }

root_entry : (i : ℕ) → i < 512 → is_valid (load64 memory (4096 + 8 * i)) ≡ false
root_entry i lt = let e = memory-zero (4096 + 8 * i) (inl (omega (arith, lt))) in rw e refl

is_root : (x : ℕ) → only_root.level x ≢ 0 → x ≡ 4096
is_root x h = ground (arith, h)

machine-Space : Space 4096 4096 only_root (8192 ∷ 12288 ∷ []) machine
machine-Space = record {
  tree = record {
    top = (refl, refl);
    height = λ x. ground arith;
    pages = λ x h. let e = is_root x h in rw e (omega arith);
    below = λ x l i lv lt v.
        let e = is_root x (λ z. omega (arith, z, lv)) in
        absurd (
          ground
            (arith, ap (λ (q : ℕ). is_valid (load64 memory (q + 8 * i))) e, root_entry i lt, v));
  };
  free = cons (omega arith) (omega arith) (
      subst (λ p. Chain 4096 memory p (12288 ∷ []))
        (sym (load64-store64_self 8192 12288 (λ _. 0) (omega arith)))
        (cons (omega arith) tt
          (subst (λ p. Chain 4096 memory p []) (sym (memory-zero 12288 (inr (omega arith)))) nil)));
  apart = λ x h. let e = is_root x h in rw e (omega arith);
}

no_pages : (a : ℕ) → 0 ≤ a → a < 0 + 1 * 4096 → is_valid (value memory a 2 4096) ≡ false
unfolding value find
no_pages a ge lt =
    let i : a / 2 ^ 30 % 512 ≡ 0 = omega (arith, lt) in
    let e = root_entry 0 (omega arith) in rw (i, e) refl

mappages-walkaddr_example :
    Runs
      (λ fine t.
        (fine ≡ false)
        ⊎ ((a : ℕ)
            → 0 ≤ a
            → a < 0 + 1 * 4096
            → walkaddr 4096 a t ≡ ok (16384 + (page_of a - 0), t)))
      (λ d. ⊥)
      (mappages 4096 0 (1 * 4096) 16384 22 machine)
mappages-walkaddr_example =
    mappages-walkaddr 4096 4096 0 1 16384 22 only_root (8192 ∷ 12288 ∷ []) machine machine-Space
      (omega arith) (omega arith) (omega arith) (omega arith) (omega arith) (omega arith) refl
      no_pages
