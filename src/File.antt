-- ===== src/File.antt =====
-- kernel/file.c: the table of open files and its counts of references. A pointer to
-- ftable.file[k] is k. Each function is what one critical section under ftable.lock does.
pub mod Refs
mod Tests
use os.Prelude.{
  ℕ, zero, suc, ◌+◌, ◌-◌, ◌%◌, ◌^◌, Bool, not, ◌&&◌, Option, none, some, ◌==◌, ltb, if◌then◌else◌,
  update, u32,
}
use os.Kernel.{Result, ok, panic, Prog}

abbrev pub nfile : ℕ
nfile = 100

pub data FileType : Type 0 where
  fd_none fd_pipe fd_inode fd_device : FileType

pub record File : Type 0 where
  pub type : FileType
  pub ref : ℕ
  pub readable : Bool
  pub writable : Bool
  pub pipe : ℕ
  pub ip : ℕ
  pub off : ℕ
  pub major : ℕ

abbrev pub Ftable : Type 0
Ftable = ℕ → File

-- x > 0 for an int
abbrev pub is_positive : ℕ → Bool
is_positive x = not (x == 0) && ltb x (2 ^ 31)

abbrev pub set_ref : ℕ → ℕ → Ftable → Ftable
set_ref k n t = update t k (record (t k) { ref = n })

-- `left` rounds of the loop from entry `k` on
unfoldable pub alloc_loop : ℕ → ℕ → Ftable → Option ℕ × Ftable
alloc_loop zero k t = (none, t)
alloc_loop (suc left) k t =
    let rest = alloc_loop left (k + 1) t in if (t k).ref == 0 then (some k, set_ref k 1 t) else rest

unfoldable pub filealloc : Ftable → Option ℕ × Ftable
filealloc = alloc_loop nfile 0

unfoldable pub filedup : ℕ → Prog Ftable (Unit {0})
filedup k t =
    if not (is_positive (t k).ref)
    then panic "filedup"
    else ok (tt, set_ref k (u32 ((t k).ref + 1)) t)

-- what fileclose() calls once it has let go of the lock: nothing, pipeclose() or iput()
pub data Release : Type 0 where
  nothing : Release
  pipeclose : ℕ → Bool → Release
  iput : ℕ → Release

unfoldable pub release_of : FileType → File → Release
release_of fd_none f = nothing
release_of fd_pipe f = pipeclose f.pipe f.writable
release_of fd_inode f = iput f.ip
release_of fd_device f = iput f.ip

unfoldable pub fileclose : ℕ → Prog Ftable Release
fileclose k t =
    let ref = u32 ((t k).ref + 2 ^ 32 - 1) in
    if not (is_positive (t k).ref)
    then panic "fileclose"
    else if is_positive ref
    then ok (nothing, set_ref k ref t)
    else ok (release_of (t k).type (t k), update t k (record (t k) { ref = 0; type = fd_none }))
