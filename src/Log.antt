-- ===== src/Log.antt =====
-- kernel/log.c: the redo log. The functions that only read the global `log` take it as an
-- argument; those that change it return it beside their result.
pub mod Words
pub mod Header
pub mod Area
mod Two
pub mod Copy
pub mod Install
pub mod Replay
pub mod Head
pub mod Ready
pub mod Commit
pub mod Recover
pub mod Crash
pub mod Power
pub mod Returns
pub mod Ops
mod Tests
use Prim.Native.Nat.{min}
use os.Prelude.{
  ℕ, zero, suc, ◌+◌, ◌-◌, ◌*◌, ◌/◌, ◌%◌, ◌^◌, Bool, true, false, ◌&&◌, ◌||◌, Option, none, some,
  List, [], ◌∷◌, ◌==◌, ltb, leb, if◌then◌else◌, update, u32,
}
use os.Kernel.{Block, Disk, Result, ok, panic, sleeps, crashed, Prog, ◌>>=◌, ◌>>◌, and_then, pure}
use os.Bio.{Bcache, bread, bwrite, brelse, bpin, bunpin}
use os.Bio.Hold.{set_bytes}

abbrev pub max_op_blocks : ℕ
max_op_blocks = 10

abbrev pub log_blocks : ℕ
log_blocks = 30

-- `struct log` without its lock, with its `struct logheader lh` as `n` and `block`. An int is
-- kept as its 32-bit word.
pub record Log : Type 0 where
  pub start : ℕ
  pub outstanding : ℕ
  pub committing : Bool
  pub dev : ℕ
  pub n : ℕ
  pub block : ℕ → ℕ

-- word `k` of a block, little-endian, as the cast of its bytes to ints reads it
unfoldable pub word : Block → ℕ → ℕ
word b k = b (4 * k) + 256 * b (4 * k + 1) + 65536 * b (4 * k + 2) + 16777216 * b (4 * k + 3)

unfoldable pub set_word : Block → ℕ → ℕ → Block
set_word b k v o =
    if o == 4 * k
    then v % 256
    else if o == 4 * k + 1
    then v / 256 % 256
    else if o == 4 * k + 2
    then v / 65536 % 256
    else if o == 4 * k + 3
    then v / 16777216 % 256
    else b o

-- the rounds of `for (i = 0; i < n; i++)` for an int `n`, negative from 2^31 on
unfoldable pub rounds : ℕ → ℕ
rounds n = if ltb n (2 ^ 31) then n else 0

-- hb->block[i] = log.lh.block[i], and so on for `left` words
pub put_blocks : (ℕ → ℕ) → ℕ → ℕ → Block → Block
put_blocks block zero i b = b
put_blocks block (suc left) i b = put_blocks block left (i + 1) (set_word b (i + 1) (block i))

unfoldable pub header_bytes : Log → Block → Block
unfolding put_blocks set_word rounds
header_bytes log b = put_blocks log.block (rounds log.n) 0 (set_word b 0 log.n)

-- log.lh.block[i] = lh->block[i], and so on for `left` words
pub get_blocks : Block → ℕ → ℕ → (ℕ → ℕ) → ℕ → ℕ
get_blocks b zero i block = block
get_blocks b (suc left) i block = get_blocks b left (i + 1) (update block i (word b (i + 1)))

unfoldable pub read_header : Log → Block → Log
unfolding word get_blocks rounds
read_header log b = record log {
  n = word b 0;
  block = get_blocks b (rounds (word b 0)) 0 log.block;
}

-- memmove(to->data, from->data, BSIZE)
unfoldable pub copy_buf : ℕ → ℕ → Prog Bcache (Unit {0})
copy_buf to from s = ok (tt, set_bytes to (s.buf from).bytes s)

unfoldable pub read_head : Log → Prog Bcache Log
read_head log = do
  buf ← bread log.dev log.start
  log' ← (λ s. ok (read_header log (s.buf buf).bytes, s))
  brelse buf
  pure log'

unfoldable pub write_head : Log → Prog Bcache (Unit {0})
write_head log = do
  buf ← bread log.dev log.start
  (λ s. ok (tt, set_bytes buf (header_bytes log (s.buf buf).bytes) s))
  bwrite buf
  brelse buf

unfoldable pub install_one : Log → Bool → ℕ → Prog Bcache (Unit {0})
install_one log recovering tail = do
  lbuf ← bread log.dev (log.start + tail + 1)
  dbuf ← bread log.dev (log.block tail)
  copy_buf dbuf lbuf
  bwrite dbuf
  (if recovering then pure tt else bunpin dbuf)
  brelse lbuf
  brelse dbuf

unfoldable pub install_loop : Log → Bool → ℕ → ℕ → Prog Bcache (Unit {0})
install_loop log recovering zero tail = pure tt
install_loop log recovering (suc left) tail = do
  install_one log recovering tail
  install_loop log recovering left (tail + 1)

unfoldable pub install_trans : Log → Bool → Prog Bcache (Unit {0})
install_trans log recovering = install_loop log recovering (rounds log.n) 0

unfoldable pub write_log_one : Log → ℕ → Prog Bcache (Unit {0})
write_log_one log tail = do
  to ← bread log.dev (log.start + tail + 1)
  from ← bread log.dev (log.block tail)
  copy_buf to from
  bwrite to
  brelse from
  brelse to

unfoldable pub write_log_loop : Log → ℕ → ℕ → Prog Bcache (Unit {0})
write_log_loop log zero tail = pure tt
write_log_loop log (suc left) tail = do write_log_one log tail; write_log_loop log left (tail + 1)

unfoldable pub write_log : Log → Prog Bcache (Unit {0})
write_log log = write_log_loop log (rounds log.n) 0

unfoldable pub recover_from_log : Log → Prog Bcache Log
recover_from_log log = do
  log' ← read_head log
  install_trans log' true
  write_head (record log' { n = 0 })
  pure (record log' { n = 0 })

-- initlog(); the size of a header, 124, is below BSIZE
unfoldable pub initlog : ℕ → ℕ → Log → Prog Bcache Log
initlog dev start log = recover_from_log (record log { start = start; dev = dev })

unfoldable pub commit_all : Log → Prog Bcache Log
commit_all log = do
  write_log log
  write_head log
  install_trans log false
  write_head (record log { n = 0 })
  pure (record log { n = 0 })

-- log.lh.n > 0 as an int
unfoldable pub commit : Log → Prog Bcache Log
commit log s = if ltb 0 (rounds log.n) then commit_all log s else ok (log, s)
