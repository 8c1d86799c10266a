-- ===== src/Kalloc/Tests.antt =====
-- The allocator at concrete inputs: a kernel that ends one page below PHYSTOP.
use os.Prelude.{ℕ, ◌+◌, ◌-◌, ◌<◌, ◌≤◌, ◌≡◌, ◌⊎◌, ◌↔◌, refl, List, arith, true, false, update}
use os.Kernel.{Result, ok, panic, sleeps, crashed}
use os.Kernel.Runs.{Runs}
use os.Kalloc.{Kmem, pgsize, phystop, kfree, kalloc, kinit, freerange, free_loop}
use os.Kalloc.Chain.{IsPage, SameOutside}
use os.Kalloc.Calls.{Free}
use os.Kalloc.Boot.{In, kinit-Free}
use os.Kalloc.Owners.{Reach, boots, then_step, allocates, kalloc-new, kfree-owned}

abbrev kernel_end : ℕ
kernel_end = phystop - 5000

abbrev fresh : Kmem
fresh = record { freelist = 0; mem = λ _. 0 }

abbrev state_of : {A : Type 0} → Result (A × Kmem) → Kmem
state_of (ok (a, s)) = s
state_of (panic m) = fresh
state_of sleeps = fresh
state_of (crashed d) = fresh

abbrev booted : Kmem
booted = state_of (kinit kernel_end fresh)

kinit-Free_example :
    Runs
      (λ _ t. (xs : List ℕ) × Free kernel_end t xs × ((x : ℕ) → In x xs ↔ IsPage kernel_end x))
      (λ d. ⊥)
      (kinit kernel_end (record { freelist = 0; mem = λ _. 0 }))
kinit-Free_example = kinit-Free kernel_end (λ _. 0) (omega arith) (omega arith)

booted-Reach : Reach kernel_end (record { kmem = booted; owned = λ _. false })
unfolding kinit freerange free_loop kfree
booted-Reach = boots (λ _. 0) (omega arith) (omega arith) refl

kalloc-new_example :
    Runs
      (λ r t.
        ((r ≡ 0) × (t ≡ booted) × ((x : ℕ) → IsPage kernel_end x → false ≡ true))
        ⊎ (IsPage kernel_end r
            × (false ≡ false)
            × ((a : ℕ) → r ≤ a → a < r + pgsize → t.mem a ≡ 5)
            × SameOutside r booted.mem t.mem))
      (λ d. ⊥)
      (kalloc booted)
kalloc-new_example = kalloc-new (record { kmem = booted; owned = λ _. false }) booted-Reach

abbrev given : Kmem
given = state_of (kalloc booted)

given-Reach :
    Reach kernel_end (record { kmem = given; owned = update (λ _. false) (phystop - 4096) true })
unfolding kinit freerange free_loop kfree kalloc
given-Reach = then_step booted-Reach (allocates (phystop - 4096) refl)

kfree-owned_example :
    Runs
      (λ _ t. SameOutside (phystop - 4096) given.mem t.mem)
      (λ d. ⊥)
      (kfree kernel_end (phystop - 4096) given)
kfree-owned_example =
    kfree-owned (record { kmem = given; owned = update (λ _. false) (phystop - 4096) true })
      (phystop - 4096) given-Reach refl
