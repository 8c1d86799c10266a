-- ===== src/Vm/Copy.antt =====
-- kernel/vm.c: pages that are allocated when they are used, and the copies between the kernel and
-- a process. A kernel pointer is its physical address, which the kernel maps to itself. `sz` is
-- the size of the running process and `own` its page table.
pub mod Frame
pub mod Text
mod Tests
use os.Prelude.{
  ℕ, zero, suc, ◌+◌, ◌-◌, ◌*◌, ◌/◌, ◌%◌, ◌^◌, Bool, true, false, not, ◌&&◌, ◌||◌, ◌==◌, ltb, leb,
  if◌then◌else◌, update, u64,
}
use Prim.Native.Nat.{min}
use os.Kernel.{Result, ok, panic, sleeps, Prog, and_then, ◌>>=◌, ◌>>◌, modify}
use os.Str.{Memory, memmove}
use os.Kalloc.{Kmem, kalloc, kfree, pgsize, pgrounddown}
use os.Vm.{maxva, is_writable, get_pte, set_pte, zero_page, walk, walkaddr, ismapped, mappages}

module _ (end sz own : ℕ) where
  -- PTE_W|PTE_U|PTE_R is 22
  unfoldable pub vmfault : ℕ → ℕ → Prog Kmem ℕ
  vmfault pagetable va s =
      let page_va = pgrounddown va in
      let new =
        (kalloc >>= λ page t.
        if page == 0
        then ok (0, t)
        else (mappages own page_va pgsize page 22 >>= λ fine u.
              if fine then ok (page, u) else (kfree end page >> λ v. ok (0, v)) u)
            (zero_page page t)) in
      if leb sz va
      then ok (0, s)
      else (ismapped pagetable page_va >>= λ mapped t. if mapped then ok (0, t) else new t) s

  -- walkaddr(), or else vmfault()
  unfoldable pub resolve : ℕ → ℕ → Prog Kmem ℕ
  resolve pagetable va =
      walkaddr pagetable va >>= λ pa s. if pa == 0 then vmfault pagetable va s else ok (pa, s)

  -- the loop of copyin(), on fuel; each round copies a byte or more. Whether it returns 0.
  unfoldable pub copyin_loop : ℕ → ℕ → ℕ → ℕ → ℕ → Prog Kmem Bool
  copyin_loop zero pagetable dst srcva len s = sleeps
  copyin_loop (suc fuel) pagetable dst srcva len s =
      let va0 = pgrounddown srcva in
      let n = min (pgsize - (srcva - va0)) len in
      let rest = copyin_loop fuel pagetable (dst + n) (u64 (va0 + pgsize)) (len - n) in
      let round =
        (resolve pagetable va0 >>= λ pa0 t.
        if pa0 == 0
        then ok (false, t)
        else rest (record t { mem = memmove dst (pa0 + (srcva - va0)) n t.mem })) in
      if ltb 0 len then round s else ok (true, s)

  unfoldable pub copyin : ℕ → ℕ → ℕ → ℕ → Prog Kmem Bool
  copyin pagetable dst srcva len = copyin_loop (suc len) pagetable dst srcva len

  -- the loop of copyout(), on fuel
  unfoldable pub copyout_loop : ℕ → ℕ → ℕ → ℕ → ℕ → Prog Kmem Bool
  copyout_loop zero pagetable dstva src len s = sleeps
  copyout_loop (suc fuel) pagetable dstva src len s =
      let va0 = pgrounddown dstva in
      let n = min (pgsize - (dstva - va0)) len in
      let rest = copyout_loop fuel pagetable (u64 (va0 + pgsize)) (src + n) (len - n) in
      let round =
        (resolve pagetable va0 >>= λ pa0 t.
        if pa0 == 0
        then ok (false, t)
        else (walk pagetable va0 false >>= λ pte u.
              if not (is_writable (get_pte pte u))
              then ok (false, u)
              else rest (record u { mem = memmove (pa0 + (dstva - va0)) src n u.mem }))
            t) in
      if not (ltb 0 len) then ok (true, s) else if leb maxva va0 then ok (false, s) else round s

  unfoldable pub copyout : ℕ → ℕ → ℕ → ℕ → Prog Kmem Bool
  copyout pagetable dstva src len = copyout_loop (suc len) pagetable dstva src len

-- The inner loop of copyinstr() with `n` bytes of the page to go: whether it has met the 0.
unfoldable pub string_loop : ℕ → ℕ → ℕ → Memory → Bool × Memory
string_loop p dst zero m = (false, m)
string_loop p dst (suc n) m =
    let rest = string_loop (p + 1) (dst + 1) n (update m dst (m p)) in
    if m p == 0 then (true, update m dst 0) else rest

-- the outer loop, on fuel
unfoldable pub copyinstr_loop : ℕ → ℕ → ℕ → ℕ → ℕ → Prog Kmem Bool
copyinstr_loop zero pagetable dst srcva left s = sleeps
copyinstr_loop (suc fuel) pagetable dst srcva left s =
    let va0 = pgrounddown srcva in
    let n = min (pgsize - (srcva - va0)) left in
    let rest = copyinstr_loop fuel pagetable (dst + n) (u64 (va0 + pgsize)) (left - n) in
    let round =
      (walkaddr pagetable va0 >>= λ pa0 t.
      if pa0 == 0
      then ok (false, t)
      else let (got_null, m) = string_loop (pa0 + (srcva - va0)) dst n t.mem in
        if got_null then ok (true, record t { mem = m }) else rest (record t { mem = m })) in
    if ltb 0 left then round s else ok (false, s)

unfoldable pub copyinstr : ℕ → ℕ → ℕ → ℕ → Prog Kmem Bool
copyinstr pagetable dst srcva max = copyinstr_loop (suc max) pagetable dst srcva max
