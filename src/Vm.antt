-- ===== src/Vm.antt =====
-- kernel/vm.c: Sv39 page tables in the bytes of physical memory, with their pages from kalloc(). A
-- pagetable_t is the address of its page, and an address of a PTE is one of 8 bytes in it. The
-- address of the linker symbol `end`, which kfree() tests, is an argument.
pub mod Ptes
pub mod Walk
pub mod Tree
pub mod Space
pub mod Copy
mod Tests
use os.Prelude.{
  ℕ, zero, suc, ◌+◌, ◌-◌, ◌*◌, ◌/◌, ◌%◌, ◌^◌, Bool, true, false, not, ◌&&◌, ◌||◌, ◌==◌, ltb, leb,
  if◌then◌else◌, u32, u64,
}
use os.Kernel.{Result, ok, panic, sleeps, Prog, and_then, ◌>>=◌, ◌>>◌, modify}
use os.Str.{memset, memmove}
use os.Kalloc.{Kmem, load64, store64, kalloc, kfree, pgsize, pgroundup}

-- 2^38
abbrev pub maxva : ℕ
maxva = 0x4000000000

abbrev pub px : ℕ → ℕ → ℕ
px level va = va / 2 ^ (12 + 9 * level) % 512

abbrev pub pa2pte : ℕ → ℕ
pa2pte pa = pa / 4096 * 1024

abbrev pub pte2pa : ℕ → ℕ
pte2pa pte = u64 (pte / 1024 * 4096)

abbrev pub pte_flags : ℕ → ℕ
pte_flags pte = pte % 1024

-- *pte & PTE_V and so on
abbrev pub is_valid : ℕ → Bool
is_valid pte = pte % 2 == 1

abbrev pub is_writable : ℕ → Bool
is_writable pte = pte / 4 % 2 == 1

abbrev pub is_user : ℕ → Bool
is_user pte = pte / 16 % 2 == 1

-- a PTE with PTE_R, PTE_W or PTE_X
abbrev pub is_leaf : ℕ → Bool
is_leaf pte = not (pte / 2 % 8 == 0)

-- PA2PTE(pa) | perm | PTE_V, for flags `perm` below 1024
abbrev pub make_pte : ℕ → ℕ → ℕ
make_pte pa perm = pa2pte pa + (perm / 2 * 2 + 1)

abbrev pub get_pte : ℕ → Kmem → ℕ
get_pte pte s = load64 s.mem pte

abbrev pub set_pte : ℕ → ℕ → Kmem → Kmem
set_pte pte v s = record s { mem = store64 pte v s.mem }

abbrev pub zero_page : ℕ → Kmem → Kmem
zero_page pa s = record s { mem = memset pa 0 pgsize s.mem }

-- the loop of walk() from `level` on
unfoldable pub walk_levels : Bool → ℕ → ℕ → ℕ → Prog Kmem ℕ
walk_levels alloc va zero pagetable s = ok (pagetable + 8 * px 0 va, s)
walk_levels alloc va (suc level) pagetable s =
    let pte = pagetable + 8 * px (suc level) va in
    let next = walk_levels alloc va level in
    let new =
      (kalloc >>= λ page t.
      if page == 0
      then ok (0, t)
      else next page (set_pte pte (pa2pte page + 1) (zero_page page t))) in
    if is_valid (get_pte pte s)
    then next (pte2pa (get_pte pte s)) s
    else if not alloc
    then ok (0, s)
    else new s

-- the address of the PTE, or 0
unfoldable pub walk : ℕ → ℕ → Bool → Prog Kmem ℕ
walk pagetable va alloc s =
    if leb maxva va then panic "walk" else walk_levels alloc va 2 pagetable s

unfoldable pub walkaddr : ℕ → ℕ → Prog Kmem ℕ
walkaddr pagetable va s =
    if leb maxva va
    then ok (0, s)
    else (walk pagetable va false >>= λ pte t.
          if pte == 0 || not (is_valid (get_pte pte t)) || not (is_user (get_pte pte t))
          then ok (0, t)
          else ok (pte2pa (get_pte pte t), t))
        s

unfoldable pub ismapped : ℕ → ℕ → Prog Kmem Bool
ismapped pagetable va =
    walk pagetable va false >>= λ pte s. ok (not (pte == 0) && is_valid (get_pte pte s), s)

-- the loop of mappages() with `left` pages to go; whether it returns 0
unfoldable pub map_loop : ℕ → ℕ → ℕ → ℕ → ℕ → ℕ → Prog Kmem Bool
map_loop pagetable last perm zero a pa s = sleeps
map_loop pagetable last perm (suc left) a pa s =
    let rest = map_loop pagetable last perm left (u64 (a + pgsize)) (u64 (pa + pgsize)) in
    and_then (walk pagetable a true s) λ pte t.
      if pte == 0
      then ok (false, t)
      else if is_valid (get_pte pte t)
      then panic "mappages: remap"
      else if a == last
      then ok (true, set_pte pte (make_pte pa perm) t)
      else rest (set_pte pte (make_pte pa perm) t)

unfoldable pub mappages : ℕ → ℕ → ℕ → ℕ → ℕ → Prog Kmem Bool
mappages pagetable va size pa perm s =
    if not (va % pgsize == 0)
    then panic "mappages: va not aligned"
    else if not (size % pgsize == 0)
    then panic "mappages: size not aligned"
    else if size == 0
    then panic "mappages: size"
    else map_loop pagetable (u64 (va + size + 2 ^ 64 - pgsize)) perm (size / pgsize) va pa s

unfoldable pub kvmmap : ℕ → ℕ → ℕ → ℕ → ℕ → Prog Kmem (Unit {0})
kvmmap kpgtbl va pa sz perm =
    mappages kpgtbl va sz pa perm >>= λ fine s. if fine then ok (tt, s) else panic "kvmmap"

unfoldable pub uvmcreate : Prog Kmem ℕ
uvmcreate = kalloc >>= λ pagetable s.
    if pagetable == 0 then ok (0, s) else ok (pagetable, zero_page pagetable s)

module _ (end : ℕ) where
  -- one round of uvmunmap()
  unfoldable pub unmap_one : ℕ → ℕ → Bool → Prog Kmem (Unit {0})
  unmap_one pagetable a do_free = walk pagetable a false >>= λ pte s.
      if pte == 0 || not (is_valid (get_pte pte s))
      then ok (tt, s)
      else if do_free
      then (kfree end (pte2pa (get_pte pte s)) >> modify (set_pte pte 0)) s
      else ok (tt, set_pte pte 0 s)

  -- the loop, with at most `left` rounds
  unfoldable pub unmap_loop : ℕ → ℕ → Bool → ℕ → ℕ → Prog Kmem (Unit {0})
  unmap_loop pagetable last do_free zero a s = ok (tt, s)
  unmap_loop pagetable last do_free (suc left) a s =
      let round = (do
        unmap_one pagetable a do_free
        unmap_loop pagetable last do_free left (u64 (a + pgsize))) in
      if ltb a last then round s else ok (tt, s)

  unfoldable pub uvmunmap : ℕ → ℕ → ℕ → Bool → Prog Kmem (Unit {0})
  uvmunmap pagetable va npages do_free s =
      if not (va % pgsize == 0)
      then panic "uvmunmap: not aligned"
      else unmap_loop pagetable (u64 (va + npages * pgsize)) do_free npages va s

  -- an int npages, passed as a uint64
  abbrev pub sign_extend : ℕ → ℕ
  sign_extend n = if ltb (u32 n) (2 ^ 31) then u32 n else u32 n + (2 ^ 64 - 2 ^ 32)

  unfoldable pub uvmdealloc : ℕ → ℕ → ℕ → Prog Kmem ℕ
  uvmdealloc pagetable oldsz newsz s =
      if leb oldsz newsz
      then ok (oldsz, s)
      else if ltb (pgroundup newsz) (pgroundup oldsz)
      then (uvmunmap pagetable (pgroundup newsz)
              (sign_extend ((pgroundup oldsz - pgroundup newsz) / pgsize)) true
            >> λ t. ok (newsz, t))
          s
      else ok (newsz, s)

  -- the loop of uvmalloc() from `a` on, on fuel
  unfoldable pub alloc_loop : ℕ → ℕ → ℕ → ℕ → ℕ → ℕ → Prog Kmem ℕ
  alloc_loop pagetable oldsz newsz perm zero a s = sleeps
  alloc_loop pagetable oldsz newsz perm (suc left) a s =
      let rest = alloc_loop pagetable oldsz newsz perm left (a + pgsize) in
      let fail = uvmdealloc pagetable a oldsz >> λ t. ok (0, t) in
      let round =
        (kalloc >>= λ page t.
        if page == 0
        then fail t
        else (mappages pagetable a pgsize page perm >>= λ fine u.
              if fine then rest u else (kfree end page >> fail) u)
            (zero_page page t)) in
      if ltb a newsz then round s else ok (newsz, s)

  -- PTE_R|PTE_U|xperm is 18 with the bits of xperm, which is 0, PTE_W or PTE_X here
  unfoldable pub uvmalloc : ℕ → ℕ → ℕ → ℕ → Prog Kmem ℕ
  uvmalloc pagetable oldsz newsz xperm s =
      if ltb newsz oldsz
      then ok (oldsz, s)
      else alloc_loop pagetable (pgroundup oldsz) newsz (18 + xperm) (newsz / pgsize + 2)
          (pgroundup oldsz) s

  -- the entries of a page table from `i` on; `child` frees the table below
  unfoldable pub free_ptes : (ℕ → Prog Kmem (Unit {0})) → ℕ → ℕ → ℕ → Prog Kmem (Unit {0})
  free_ptes child zero i pagetable s = ok (tt, s)
  free_ptes child (suc left) i pagetable s =
      let pte = get_pte (pagetable + 8 * i) s in
      let rest = free_ptes child left (i + 1) pagetable in
      let free = (do
        child (pte2pa pte)
        modify (set_pte (pagetable + 8 * i) 0)
        free_ptes child left (i + 1) pagetable) in
      if is_valid pte && not (is_leaf pte)
      then free s
      else if is_valid pte
      then panic "freewalk: leaf"
      else rest s

  -- a tree of at most `depth` levels
  unfoldable pub freewalk : ℕ → ℕ → Prog Kmem (Unit {0})
  freewalk zero pagetable s = sleeps
  freewalk (suc depth) pagetable s =
      (free_ptes (freewalk depth) 512 0 pagetable >> kfree end pagetable) s

  unfoldable pub uvmfree : ℕ → ℕ → Prog Kmem (Unit {0})
  uvmfree pagetable sz s =
      let unmap = uvmunmap pagetable 0 (pgroundup sz / pgsize) true in
      let free = freewalk 3 pagetable in if ltb 0 sz then (unmap >> free) s else free s

  -- the loop of uvmcopy() from `i` on, on fuel; whether it returns 0
  unfoldable pub copy_loop : ℕ → ℕ → ℕ → ℕ → ℕ → Prog Kmem Bool
  copy_loop old new sz zero i s = sleeps
  copy_loop old new sz (suc left) i s =
      let rest = copy_loop old new sz left (i + pgsize) in
      let fail = uvmunmap new 0 (i / pgsize) true >> λ t. ok (false, t) in
      let round =
        (walk old i false >>= λ pte t.
        if pte == 0 || not (is_valid (get_pte pte t))
        then rest t
        else (kalloc >>= λ page u.
              if page == 0
              then fail u
              else (mappages new i pgsize page (pte_flags (get_pte pte t)) >>= λ fine v.
                    if fine then rest v else (kfree end page >> fail) v)
                  (record u { mem = memmove page (pte2pa (get_pte pte t)) pgsize u.mem }))
            t) in
      if ltb i sz then round s else ok (true, s)

  unfoldable pub uvmcopy : ℕ → ℕ → ℕ → Prog Kmem Bool
  uvmcopy old new sz = copy_loop old new sz (sz / pgsize + 2) 0

-- *pte &= ~PTE_U
unfoldable pub uvmclear : ℕ → ℕ → Prog Kmem (Unit {0})
uvmclear pagetable va = walk pagetable va false >>= λ pte s.
    if pte == 0
    then panic "uvmclear"
    else ok (tt, set_pte pte (get_pte pte s - (if is_user (get_pte pte s) then 16 else 0)) s)
