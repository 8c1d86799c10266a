-- ===== src/Vm/Space/Maps.antt =====
-- mappages(): what the PTEs say, in the fields of the words, and where new tables come from.
use os.Prelude.{ℕ, ◌+◌, ◌-◌, ◌*◌, ◌/◌, ◌%◌, ◌<◌, ◌≤◌, ◌≡◌, ◌≢◌, ◌⊎◌, Bool, true, false, List, []}
use os.Kernel.Runs.{Runs}
use os.Kalloc.{Kmem}
use os.Kalloc.Chain.{NotIn}
use os.Vm.{maxva}
use os.Vm.Walk.{value}
use os.Vm.Tree.{Labels}
use os.Vm.Space.{Space, page_of}

-- What mappages() leaves of the free pages `xs` and the tables `g`: PTEs of `k` pages from `a` on,
-- valid, with successive pages from `pa` on and the flags, and no other PTE changed. A table is one
-- of before or was a free page, and only tables have been written to.
pub record Maps (end root : ℕ) (g : Labels) (xs : List ℕ) (s : Kmem) (a pa perm n : ℕ) (fine : Bool)
    (t : Kmem) : Type 0 where
  pub tables : Labels
  pub rest : List ℕ
  pub k : ℕ
  pub le : k ≤ n
  pub result : ((fine ≡ true) × (k ≡ n)) ⊎ ((fine ≡ false) × (rest ≡ []))
  pub space : Space end root tables rest t
  pub mapped :
      (va : ℕ)
      → a ≤ va
      → va < a + k * 4096
      → let pte = value t.mem va 2 root in
        (pte % 2 ≡ 1) × (pte / 1024 * 4096 ≡ pa + (page_of va - a)) × (pte % 1024 / 2 ≡ perm / 2)
  pub unmapped :
      (va : ℕ)
      → va < maxva
      → (va < a) ⊎ (a + k * 4096 ≤ va)
      → value t.mem va 2 root ≡ value s.mem va 2 root
  pub kept_tables : (y : ℕ) → g.level y ≢ 0 → tables.level y ≡ g.level y
  pub new_tables : (y : ℕ) → g.level y ≡ 0 → NotIn y xs → tables.level y ≡ 0
  pub others : (x : ℕ) → g.level (page_of x) ≡ 0 → NotIn (page_of x) xs → t.mem x ≡ s.mem x
