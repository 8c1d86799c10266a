-- ===== src/Vm/Copy/Tests.antt =====
-- A process with one page, which holds the text "hi".
use os.Prelude.{
  ℕ, suc, ◌+◌, ◌*◌, ◌<◌, ◌≡◌, ◌≢◌, ◌⊎◌, inl, inr, refl, sym, ap, ◌∙◌, true, ◌==◌, update, arith,
  Bool-cases,
}
use os.Kernel.Runs.{Runs}
use os.Str.{Memory}
use os.Kalloc.{Kmem, pgrounddown, load64, store64}
use os.Kalloc.Words.{load64-store64_self, load64-zero, load64-ext}
use os.Vm.{is_valid, pte2pa}
use os.Vm.Walk.{find, value}
use os.Vm.Tree.{Labels, Tree, load64-store64_ne}
use os.Vm.Copy.{copyinstr}
use os.Vm.Copy.Frame.{translate, translate-page, user_byte}
use os.Vm.Copy.Text.{Text, Apart, Stops, copyinstr-Text}

abbrev text : Memory
text = update (update (λ _. 0) 16384 104) 16385 105

-- tables at 4096, 8192 and 12288, and the page at 16384
abbrev memory : Memory
memory = store64 4096 2049 (store64 8192 3073 (store64 12288 4119 text))

entry_4096 : load64 memory 4096 ≡ 2049
entry_4096 =
    load64-store64_self 4096 2049 (store64 8192 3073 (store64 12288 4119 text)) (omega arith)

entry_8192 : load64 memory 8192 ≡ 3073
entry_8192 =
    load64-store64_ne 4096 8192 2049 (store64 8192 3073 (store64 12288 4119 text))
      (inr (omega arith))
    ∙ load64-store64_self 8192 3073 (store64 12288 4119 text) (omega arith)

entry_12288 : load64 memory 12288 ≡ 4119
entry_12288 =
    load64-store64_ne 4096 12288 2049 (store64 8192 3073 (store64 12288 4119 text))
      (inr (omega arith))
    ∙ load64-store64_ne 8192 12288 3073 (store64 12288 4119 text) (inr (omega arith))
    ∙ load64-store64_self 12288 4119 text (omega arith)

-- no other entry
entry_zero : (x i : ℕ) → (x ≡ 4096) ⊎ (x ≡ 8192) → i < 512 → i ≢ 0 → load64 memory (x + 8 * i) ≡ 0
entry_zero x i at lt ne =
    load64-store64_ne 4096 (x + 8 * i) 2049 (store64 8192 3073 (store64 12288 4119 text))
      (ground (arith, at))
    ∙ load64-store64_ne 8192 (x + 8 * i) 3073 (store64 12288 4119 text) (ground (arith, at))
    ∙ load64-store64_ne 12288 (x + 8 * i) 4119 text (ground (arith, at))
    ∙ load64-ext (λ _. 0) text (x + 8 * i) (λ a lo hi. ground (arith, at))
    ∙ load64-zero (x + 8 * i)

abbrev three : Labels
three = record { level = update (update (update (λ _. 0) 4096 3) 8192 2) 12288 1; prefix = λ _. 0 }

below :
    (x l i : ℕ)
    → three.level x ≡ suc (suc l)
    → i < 512
    → is_valid (load64 memory (x + 8 * i)) ≡ true
    → (three.level (pte2pa (load64 memory (x + 8 * i))) ≡ suc l) × (0 ≡ 0 * 512 + i)
below x l i lv lt v = elim (Bool-cases (i == 0)) [
  | inr e ↦ absurd (ground (arith, v, entry_zero x i (ground (arith, lv)) lt (ground arith)))
  | inl e ↦ elim (Bool-cases (x == 4096)) [
    | inl f ↦
        let at : x + 8 * i ≡ 4096 = ground arith in
        let lvl : l ≡ 1 = ground (arith, lv) in rw (at, entry_4096, lvl) (omega arith, ground arith)
    | inr f ↦
        let at : x + 8 * i ≡ 8192 = ground (arith, lv) in
        let lvl : l ≡ 0 = ground (arith, lv) in rw (at, entry_8192, lvl) (omega arith, ground arith)
  ]
]

abbrev machine : Kmem
machine = record { freelist = 0; mem = memory }

machine-Tree : Tree 4096 4096 three memory
machine-Tree = record {
  top = (refl, refl);
  height = λ x. ground arith;
  pages = λ x h. ground (arith, h);
  below = below;
}

page_zero : translate memory 4096 0 ≡ 16384
unfolding value find
page_zero = rw (entry_4096, entry_8192, entry_12288) refl

first_page : (i : ℕ) → i < 4 → translate memory 4096 (0 + i) ≡ 16384
first_page i lt =
    let p : pgrounddown (0 + i) ≡ 0 = omega (arith, lt) in
    sym (translate-page memory 4096 (0 + i)) ∙ ap (translate memory 4096) p ∙ page_zero

machine-Apart : Apart three memory 4096 20480 0 4
machine-Apart = record {
  clear = λ a lo hi. ground (arith, lo, hi);
  sources = λ i lt. let e = first_page i lt in rw e (inl (omega (arith, lt)));
}

copyinstr-Text_example :
    Runs
      (λ fine t.
        Text (λ i. user_byte memory 4096 (0 + i)) 20480 4 (Stops memory 4096 0 4) fine memory t.mem)
      (λ d. ⊥)
      (copyinstr 4096 20480 0 4 machine)
copyinstr-Text_example = copyinstr-Text 4096 4096 20480 0 4 three machine machine-Tree machine-Apart
