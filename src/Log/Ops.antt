-- ===== src/Log/Ops.antt =====
-- kernel/log.c: begin_op(), log_write() and end_op(), the calls of a file system operation. Each
-- runs under log.lock; end_op() releases it before its commit, so it is two functions.
pub mod Absorb
pub mod System
mod Steps
pub mod Reserve
use os.Prelude.{
  ℕ, zero, suc, ◌+◌, ◌-◌, ◌*◌, ◌^◌, Bool, true, false, Option, none, some, ◌==◌, ltb, leb,
  if◌then◌else◌, update, u32,
}
use os.Kernel.{Result, ok, panic, Prog, ◌>>=◌, ◌>>◌, pure}
use os.Bio.{Bcache, bpin}
use os.Log.{Log, log_blocks, max_op_blocks, rounds, commit}

-- One round of the loop of begin_op(): `none` is a sleep on the log, after which it runs again.
unfoldable pub begin_op : Log → Option Log
begin_op log =
    if log.committing
    then none
    else if ltb log_blocks (rounds (u32 (log.n + (log.outstanding + 1) * max_op_blocks)))
    then none
    else some (record log { outstanding = u32 (log.outstanding + 1) })

-- the first i from `i` on with log.lh.block[i] equal to the block, or the end of `left` rounds
unfoldable pub absorb : (ℕ → ℕ) → ℕ → ℕ → ℕ → ℕ
absorb block blockno zero i = i
absorb block blockno (suc left) i =
    let rest = absorb block blockno left (i + 1) in if block i == blockno then i else rest

unfoldable pub log_write : Log → ℕ → Prog Bcache Log
log_write log b s =
    let blockno = (s.buf b).blockno in
    let i = absorb log.block blockno (rounds log.n) 0 in
    let log' = record log { block = update log.block i blockno } in
    if leb log_blocks (rounds log.n)
    then panic "too big a transaction"
    else if ltb (rounds log.outstanding) 1
    then panic "log_write outside of trans"
    else if i == log.n
    then (do bpin b; pure (record log' { n = u32 (log'.n + 1) })) s
    else ok (log', s)

-- end_op() up to the first release(): the new log and do_commit
unfoldable pub end_op_leave : Log → Result (Log × Bool)
end_op_leave log =
    let left = u32 (log.outstanding + 2 ^ 32 - 1) in
    if log.committing
    then panic "log.committing"
    else if left == 0
    then ok (record log { outstanding = left; committing = true }, true)
    else ok (record log { outstanding = left }, false)

-- the rest of end_op()
unfoldable pub end_op_commit : Log → Bool → Prog Bcache Log
end_op_commit log false s = ok (log, s)
end_op_commit log true s = (do log' ← commit log; pure (record log' { committing = false })) s
