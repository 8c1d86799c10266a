-- ===== src/Fs/Content.antt =====
-- readi() and writei() of kernel/fs.c. either_copyin() and either_copyout() are parameters: what
-- they do with the bytes and whether they return 0. A copy that fails may have moved some bytes.
pub mod Bytes
pub mod Round
mod Loop
pub mod Write
mod Limit
pub mod Read
mod Tests
use Prim.Native.Nat.{min}
use os.Prelude.{
  ℕ, zero, suc, ◌+◌, ◌-◌, ◌*◌, ◌/◌, ◌%◌, ◌^◌, Bool, true, false, ◌||◌, Option, none, some, ◌==◌,
  ltb, if◌then◌else◌, update, u32,
}
use os.Kernel.{Block, Result, ok, sleeps, Prog, ◌>>=◌, and_then}
use os.Str.{Memory}
use os.Fs.{Fs, bsize, store, bmap, iupdate}

abbrev pub maxfile : ℕ
maxfile = 268

-- either_copyin(block + o, user_src, src, m): the source, o, m and the block
abbrev pub CopyIn : Type 0
CopyIn = ℕ → ℕ → ℕ → Block → Bool × Block

-- either_copyout(user_dst, dst, block + o, m): the destination, o, m, the block and the memory
abbrev pub CopyOut : Type 0
CopyOut = ℕ → ℕ → ℕ → Block → Memory → Bool × Memory

-- The loop of writei() with tot, off and src, on fuel; it ends with tot and off.
unfoldable pub write_loop : CopyIn → ℕ → ℕ → ℕ → ℕ → ℕ → Prog Fs (ℕ × ℕ)
write_loop copyin zero tot off src n s = sleeps
write_loop copyin (suc fuel) tot off src n s =
    let m = min (n - tot) (bsize - off % bsize) in
    let rest = λ (addr : ℕ) (t : Fs).
      write_loop copyin fuel (tot + m) (off + m) (src + m) n
        (store addr (copyin src (off % bsize) m (t.disk addr)).1 t) in
    let round =
      (bmap (off / bsize) >>= λ addr t.
      if addr == 0
      then ok ((tot, off), t)
      else if (copyin src (off % bsize) m (t.disk addr)).0
      then rest addr t
      else ok ((tot, off), store addr (copyin src (off % bsize) m (t.disk addr)).1 t)) in
    if ltb tot n then round s else ok ((tot, off), s)

unfoldable pub write_end : ℕ × ℕ → Prog Fs (Option ℕ)
write_end (tot, off) s = ok (
  some tot,
  iupdate (if ltb s.ip.size off then record s { ip = record s.ip { size = off } } else s),
)

-- the number of bytes, or none for -1; each round writes at least a byte
unfoldable pub writei : CopyIn → ℕ → ℕ → ℕ → Prog Fs (Option ℕ)
writei copyin src off n s =
    if ltb s.ip.size off || ltb (u32 (off + n)) off
    then ok (none, s)
    else if ltb (maxfile * bsize) (u32 (off + n))
    then ok (none, s)
    else (write_loop copyin (suc n) 0 off src n >>= write_end) s

-- The loop of readi() with tot, off and dst, and the memory, on fuel.
unfoldable pub read_loop : CopyOut → ℕ → ℕ → ℕ → ℕ → ℕ → Memory → Prog Fs (Option ℕ × Memory)
read_loop copyout zero tot off dst n mem s = sleeps
read_loop copyout (suc fuel) tot off dst n mem s =
    let m = min (n - tot) (bsize - off % bsize) in
    let rest = λ (addr : ℕ) (t : Fs).
      read_loop copyout fuel (tot + m) (off + m) (dst + m) n
        (copyout dst (off % bsize) m (t.disk addr) mem).1 t in
    let round =
      (bmap (off / bsize) >>= λ addr t.
      if addr == 0
      then ok ((some tot, mem), t)
      else if (copyout dst (off % bsize) m (t.disk addr) mem).0
      then rest addr t
      else ok ((none, (copyout dst (off % bsize) m (t.disk addr) mem).1), t)) in
    if ltb tot n then round s else ok ((some tot, mem), s)

-- the number of bytes, or none for -1, and the memory
unfoldable pub readi : CopyOut → ℕ → ℕ → ℕ → Memory → Prog Fs (Option ℕ × Memory)
readi copyout dst off n mem s =
    if ltb s.ip.size off || ltb (u32 (off + n)) off
    then ok ((some 0, mem), s)
    else let n' = if ltb s.ip.size (u32 (off + n)) then s.ip.size - off else n in
      read_loop copyout (suc n') 0 off dst n' mem s
