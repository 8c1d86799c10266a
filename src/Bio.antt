-- ===== src/Bio.antt =====
-- kernel/bio.c: the buffer cache. The array bcache.buf is a function of the index, so a `struct
-- buf *` is an index; the doubly linked list through head is the list `order` of indices, from
-- head.next to head.prev. `disk` and `power` stand for the device behind virtio_disk_rw().
-- One process uses the cache at a time, so that a buffer whose sleep-lock is taken is held by the
-- caller, and holdingsleep() is the state of the lock.
pub mod Find
pub mod Cache
pub mod Change
pub mod Read
pub mod Spec
pub mod Hold
pub mod Write
pub mod Release
pub mod Give
use os.Prelude.{
  ℕ, zero, suc, ◌+◌, ◌-◌, ◌^◌, Bool, true, false, ◌&&◌, Option, none, some, List, [], ◌∷◌, ◌++◌,
  ◌==◌, if◌then◌else◌, update, u32,
}
use os.Kernel.{Block, Disk, Result, ok, panic, sleeps, crashed, Prog, ◌>>=◌, ◌>>◌, pure}

abbrev pub nbuf : ℕ
nbuf = 30

-- `struct buf`; `locked` is the state of its sleep-lock. The links are in `order`, and `disk`
-- (the device owns the buffer) is true only inside virtio_disk_rw.
pub record Buf : Type 0 where
  pub valid : Bool
  pub dev : ℕ
  pub blockno : ℕ
  pub locked : Bool
  pub refcnt : ℕ
  pub bytes : Block

-- `power` is the number of block writes that the device still completes: the next one is lost
-- together with the machine.
pub record Bcache : Type 0 where
  pub buf : ℕ → Buf
  pub order : List ℕ
  pub disk : Disk
  pub power : ℕ

-- a write through the pointer `i`
unfoldable pub set_buf : Bcache → ℕ → Buf → Bcache
set_buf s i b = record s { buf = update s.buf i b }

-- the first NBUF indices, the last one in front: each buffer was put behind the head in turn
unfoldable pub indices : ℕ → List ℕ
indices zero = []
indices (suc n) = n ∷ indices n

-- binit(), on zeroed memory
unfoldable pub binit : Disk → ℕ → Bcache
unfolding indices
binit disk power = record {
  buf = λ _. record {
    valid = false;
    dev = 0;
    blockno = 0;
    locked = false;
    refcnt = 0;
    bytes = λ _. 0;
  };
  order = indices nbuf;
  disk = disk;
  power = power;
}

unfoldable pub is_block : Buf → ℕ → ℕ → Bool
is_block b dev blockno = b.dev == dev && b.blockno == blockno

-- the walk from head.next: the first buffer of the block
unfoldable pub find_block : (ℕ → Buf) → ℕ → ℕ → List ℕ → Option ℕ
find_block buf dev blockno [] = none
find_block buf dev blockno (i ∷ is) =
    if is_block (buf i) dev blockno then some i else find_block buf dev blockno is

-- the walk from head.prev: the last buffer with no reference
unfoldable pub find_unused : (ℕ → Buf) → List ℕ → Option ℕ
find_unused buf [] = none
find_unused buf (i ∷ is) = elim (find_unused buf is) [
  | some j ↦ some j
  | none ↦ if (buf i).refcnt == 0 then some i else none
]

-- acquiresleep(): who holds the lock does not release it while this call waits
unfoldable pub lock_buf : ℕ → Prog Bcache ℕ
lock_buf i s =
    if (s.buf i).locked then sleeps else ok (i, set_buf s i (record (s.buf i) { locked = true }))

unfoldable pub bget : ℕ → ℕ → Prog Bcache ℕ
bget dev blockno s = elim (find_block s.buf dev blockno s.order) [
  | some i ↦ lock_buf i (set_buf s i (record (s.buf i) { refcnt = u32 ((s.buf i).refcnt + 1) }))
  | none ↦ elim (find_unused s.buf s.order) [
    | some i ↦
        lock_buf i (
          set_buf s i
            (record (s.buf i) { dev = dev; blockno = blockno; valid = false; refcnt = 1 }))
    | none ↦ panic "bget: no buffers"
  ]
]

-- virtio_disk_rw(b, 0) and virtio_disk_rw(b, 1), each seen as one transfer of a block
unfoldable pub disk_read : ℕ → Prog Bcache (Unit {0})
disk_read i s = ok (tt, set_buf s i (record (s.buf i) { bytes = s.disk (s.buf i).blockno }))

unfoldable pub disk_write_at : ℕ → Bcache → ℕ → Result (Unit {0} × Bcache)
disk_write_at i s zero = crashed s.disk
disk_write_at i s (suc p) =
    ok (tt, record s { disk = update s.disk (s.buf i).blockno (s.buf i).bytes; power = p })

unfoldable pub disk_write : ℕ → Prog Bcache (Unit {0})
unfolding disk_write_at
disk_write i s = disk_write_at i s s.power

unfoldable pub read_if_stale : ℕ → Prog Bcache ℕ
unfolding disk_read
read_if_stale i s =
    if (s.buf i).valid
    then ok (i, s)
    else (do disk_read i; (λ t. ok (i, set_buf t i (record (t.buf i) { valid = true })))) s

unfoldable pub bread : ℕ → ℕ → Prog Bcache ℕ
bread dev blockno = do i ← bget dev blockno; read_if_stale i

unfoldable pub bwrite : ℕ → Prog Bcache (Unit {0})
unfolding disk_write
bwrite i s = if (s.buf i).locked then disk_write i s else panic "bwrite"

unfoldable pub without : ℕ → List ℕ → List ℕ
without i [] = []
without i (j ∷ js) = let rest = without i js in if i == j then rest else j ∷ rest

-- releasesleep() and the list work: a buffer with no reference left goes behind the head
unfoldable pub brelse : ℕ → Prog Bcache (Unit {0})
unfolding without
brelse i s =
    let left = u32 ((s.buf i).refcnt + 2 ^ 32 - 1) in
    let t = set_buf s i (record (s.buf i) { locked = false; refcnt = left }) in
    if (s.buf i).locked
    then ok (tt, if left == 0 then record t { order = i ∷ without i s.order } else t)
    else panic "brelse"

unfoldable pub bpin : ℕ → Prog Bcache (Unit {0})
bpin i s = ok (tt, set_buf s i (record (s.buf i) { refcnt = u32 ((s.buf i).refcnt + 1) }))

unfoldable pub bunpin : ℕ → Prog Bcache (Unit {0})
bunpin i s =
    ok (tt, set_buf s i (record (s.buf i) { refcnt = u32 ((s.buf i).refcnt + 2 ^ 32 - 1) }))
