-- ===== src/Kalloc.antt =====
-- kernel/kalloc.c: the allocator of physical pages. `struct run` lies in the free page itself, so
-- the list is in the memory of bytes. The address of the linker symbol `end` is an argument.
pub mod Words
pub mod Chain
pub mod Calls
pub mod Boot
pub mod Owners
mod Tests
use os.Prelude.{
  ℕ, zero, suc, ◌+◌, ◌*◌, ◌/◌, ◌%◌, ◌^◌, Bool, not, ◌||◌, ◌==◌, ltb, leb, if◌then◌else◌,
}
use os.Kernel.{Result, ok, panic, sleeps, Prog, ◌>>=◌, ◌>>◌}
use os.Str.{Memory, memset}

abbrev pub pgsize : ℕ
pgsize = 4096

abbrev pub phystop : ℕ
phystop = 0x80000000 + 128 * 1024 * 1024

-- PGROUNDUP and PGROUNDDOWN, below 2^64 - 4095
abbrev pub pgroundup : ℕ → ℕ
pgroundup sz = (sz + 4095) / 4096 * 4096

abbrev pub pgrounddown : ℕ → ℕ
pgrounddown a = a / 4096 * 4096

-- the 64-bit word at `p`, little-endian
pub load64 : Memory → ℕ → ℕ
load64 m p =
    m p
    + 2 ^ 8 * m (p + 1)
    + 2 ^ 16 * m (p + 2)
    + 2 ^ 24 * m (p + 3)
    + 2 ^ 32 * m (p + 4)
    + 2 ^ 40 * m (p + 5)
    + 2 ^ 48 * m (p + 6)
    + 2 ^ 56 * m (p + 7)

pub store64 : ℕ → ℕ → Memory → Memory
store64 p v m a =
    if a == p
    then v % 256
    else if a == p + 1
    then v / 2 ^ 8 % 256
    else if a == p + 2
    then v / 2 ^ 16 % 256
    else if a == p + 3
    then v / 2 ^ 24 % 256
    else if a == p + 4
    then v / 2 ^ 32 % 256
    else if a == p + 5
    then v / 2 ^ 40 % 256
    else if a == p + 6
    then v / 2 ^ 48 % 256
    else if a == p + 7
    then v / 2 ^ 56 % 256
    else m a

-- `kmem` without its lock, and the physical memory
pub record Kmem : Type 0 where
  pub freelist : ℕ
  pub mem : Memory

unfoldable pub kfree : ℕ → ℕ → Prog Kmem (Unit {0})
unfolding store64
kfree end pa s =
    if not (pa % pgsize == 0) || ltb pa end || leb phystop pa
    then panic "kfree"
    else ok (tt, record { freelist = pa; mem = store64 pa s.freelist (memset pa 1 pgsize s.mem) })

-- the page, or 0
unfoldable pub kalloc : Prog Kmem ℕ
unfolding load64
kalloc s =
    let r = s.freelist in
    if r == 0
    then ok (0, s)
    else ok (r, record { freelist = load64 s.mem r; mem = memset r 5 pgsize s.mem })

-- The loop of freerange(), on fuel: `sleeps` where it runs out.
unfoldable pub free_loop : ℕ → ℕ → ℕ → ℕ → Prog Kmem (Unit {0})
free_loop end zero p pa_end s = sleeps
free_loop end (suc fuel) p pa_end s =
    let rest = (do kfree end p; free_loop end fuel (p + pgsize) pa_end) in
    if leb (p + pgsize) pa_end then rest s else ok (tt, s)

-- at most one round for each page below the end
unfoldable pub freerange : ℕ → ℕ → ℕ → Prog Kmem (Unit {0})
freerange end pa_start pa_end = free_loop end (suc (pa_end / pgsize)) (pgroundup pa_start) pa_end

unfoldable pub kinit : ℕ → Prog Kmem (Unit {0})
kinit end = freerange end end phystop
