-- ===== src/Fs/Dir.antt =====
-- The directories of kernel/fs.c: dirlookup() and dirlink(). A struct dirent is 16 bytes of kernel
-- memory at `de`, and its fields are read and written there. `ip` of the state is the directory,
-- which the caller has locked.
pub mod Entry
pub mod Lookup
pub mod Get
mod Empty
pub mod Link
mod Tests
use Prim.Native.String.{String}
use os.Prelude.{
  ℕ, zero, suc, ◌+◌, ◌-◌, ◌*◌, ◌/◌, ◌%◌, ◌^◌, Bool, true, false, not, ◌&&◌, ◌||◌, Option, none,
  some, ◌==◌, ltb, leb, if◌then◌else◌, update,
}
use os.Kernel.{Block, Result, ok, panic, sleeps, crashed, Prog, ◌>>=◌, and_then}
use os.Str.{Memory, strncmp, strncpy}
use os.Fs.{Fs, Inode}
use os.Fs.Content.{CopyIn, CopyOut, readi, writei}
use os.Fs.Table.{Itable, iget}

abbrev pub dirsiz : ℕ
dirsiz = 14

abbrev pub t_dir : ℕ
t_dir = 1

-- either_copyout() and either_copyin() for an address of the kernel
abbrev pub kernel_copyout : CopyOut
kernel_copyout dst o m b mem =
    (true, λ a. if leb dst a && ltb a (dst + m) then b (o + (a - dst)) else mem a)

abbrev pub kernel_copyin : Memory → CopyIn
kernel_copyin mem src o m b =
    (true, λ a. if leb o a && ltb a (o + m) then mem (src + (a - o)) else b a)

-- de.inum
abbrev pub get_inum : Memory → ℕ → ℕ
get_inum mem de = mem de + 256 * mem (de + 1)

abbrev pub set_inum : ℕ → ℕ → Memory → Memory
set_inum de inum mem = update (update mem de (inum % 256)) (de + 1) (inum / 256 % 256)

unfoldable pub namecmp : ℕ → ℕ → Memory → ℕ
namecmp s t mem = strncmp s t dirsiz mem

-- readi() of an entry of the directory into `de`, whose failure is a panic with the caller's text
unfoldable pub read_entry : String → ℕ → ℕ → Memory → Prog Fs Memory
read_entry text de off mem = readi kernel_copyout de off 16 mem >>= λ r s. elim r.0 [
  | none ↦ panic text
  | some n ↦ if n == 16 then ok (r.1, s) else panic text
]

-- the loop of dirlookup() from `off` on, on fuel: the number and the offset of the entry
unfoldable pub lookup_loop : ℕ → ℕ → ℕ → ℕ → Memory → Prog Fs (Option (ℕ × ℕ) × Memory)
lookup_loop zero name de off mem s = sleeps
lookup_loop (suc fuel) name de off mem s =
    let rest = lookup_loop fuel name de (off + 16) in
    let round =
      (read_entry "dirlookup read" de off mem >>= λ mem' t.
      if get_inum mem' de == 0
      then rest mem' t
      else if namecmp name (de + 2) mem' == 0
      then ok ((some (get_inum mem' de, off), mem'), t)
      else rest mem' t) in
    if ltb off s.ip.size then round s else ok ((none, mem), s)

unfoldable pub lookup_entry : ℕ → ℕ → Memory → Prog Fs (Option (ℕ × ℕ) × Memory)
lookup_entry name de mem s =
    if not (s.ip.type == t_dir)
    then panic "dirlookup not DIR"
    else lookup_loop (s.ip.size / 16 + 2) name de 0 mem s

-- the directory and the table of inodes
pub record Dirs : Type 0 where
  pub fs : Fs
  pub table : Itable

-- what a call on one of the two leaves of both
unfoldable pub with_fs : {A : Type 0} → Dirs → Result (A × Fs) → Result (A × Dirs)
with_fs s (ok (a, fs)) = ok (a, record s { fs = fs })
with_fs s (panic text) = panic text
with_fs s sleeps = sleeps
with_fs s (crashed d) = crashed d

unfoldable pub with_table : {A : Type 0} → Dirs → Result (A × Itable) → Result (A × Dirs)
with_table s (ok (a, table)) = ok (a, record s { table = table })
with_table s (panic text) = panic text
with_table s sleeps = sleeps
with_table s (crashed d) = crashed d

-- iget() of the entry that was found, beside its offset
unfoldable pub get_found : Option (ℕ × ℕ) × Memory → Prog Dirs (Option (ℕ × ℕ) × Memory)
get_found (none, mem) s = ok ((none, mem), s)
get_found (some (inum, off), mem) s =
    and_then (with_table s (iget s.fs.ip.dev inum s.table)) λ k t. ok ((some (k, off), mem), t)

unfoldable pub dirlookup : ℕ → ℕ → Memory → Prog Dirs (Option (ℕ × ℕ) × Memory)
dirlookup name de mem s = and_then (with_fs s (lookup_entry name de mem s.fs)) get_found

-- the second loop of dirlink() from `off` on, on fuel: the offset of an empty entry, or the end
unfoldable pub empty_loop : ℕ → ℕ → ℕ → Memory → Prog Fs (ℕ × Memory)
empty_loop zero de off mem s = sleeps
empty_loop (suc fuel) de off mem s =
    let rest = empty_loop fuel de (off + 16) in
    let round =
      (read_entry "dirlink read" de off mem >>= λ mem' t.
      if get_inum mem' de == 0 then ok ((off, mem'), t) else rest mem' t) in
    if ltb off s.ip.size then round s else ok ((off, mem), s)

-- the new entry in memory
unfoldable pub fill_entry : ℕ → ℕ → ℕ → Memory → Memory
fill_entry name de inum mem = set_inum de inum (strncpy (de + 2) name dirsiz mem)

-- writei() of the new entry; whether all of it was written
unfoldable pub put_entry : ℕ → ℕ × Memory → Prog Fs (Bool × Memory)
put_entry de (off, mem) = writei (kernel_copyin mem) de off 16 >>= λ n s.
    ok ((elim n [ none ↦ false | some k ↦ k == 16 ], mem), s)

-- dirlink() where the name is new; whether it returns 0
unfoldable pub add_entry : ℕ → ℕ → ℕ → Memory → Prog Fs (Bool × Memory)
add_entry name de inum mem s =
    (empty_loop (s.ip.size / 16 + 2) de 0 mem >>= λ (off, mem').
    put_entry de (off, fill_entry name de inum mem'))
      s
