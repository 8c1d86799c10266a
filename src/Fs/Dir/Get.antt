-- ===== src/Fs/Dir/Get.antt =====
-- dirlookup() with its iget().
use os.Prelude.{ℕ, ◌≡◌, sym, ap, Option, none, some}
use mathlib.Core.Path.{subst}
use os.Kernel.{Result, ok, panic, and_then}
use os.Kernel.Runs.{Runs, returns, crashes}
use os.Str.{Memory}
use os.Fs.{Fs}
use os.Fs.Table.{Itable, iget}
use os.Fs.Table.Unique.{Unique, Gets, again, first, none_left, iget-Gets}
use os.Fs.Dir.{t_dir, Dirs, with_fs, with_table, lookup_entry, get_found, dirlookup}
use os.Fs.Dir.Entry.{IsDir, Same}
use os.Fs.Dir.Lookup.{Looked, Buffers, Found, lookup_entry-Looked}

-- What dirlookup() does: it finds no entry, or the inode of the first one, or the table of inodes
-- has no place for that.
pub data Finds (s : Dirs) (mem : Memory) (name de : ℕ)
    : Result ((Option (ℕ × ℕ) × Memory) × Dirs) → Type 0 where
  nothing :
      (m : Memory) (t : Fs)
      → Looked s.fs mem name 0 none
      → Same s.fs t
      → Buffers mem name de m
      → Finds s mem name de (ok ((none, m), record s { fs = t }))
  inode :
      (inum off k : ℕ) (m : Memory) (t : Fs) (table : Itable)
      → Looked s.fs mem name 0 (some (inum, off))
      → Same s.fs t
      → Buffers mem name de m
      → Gets s.fs.ip.dev inum s.table (ok (k, table))
      → Finds s mem name de (ok ((some (k, off), m), record { fs = t; table = table }))
  no_place :
      (inum off : ℕ)
      → Looked s.fs mem name 0 (some (inum, off))
      → Gets s.fs.ip.dev inum s.table (panic "iget: no inodes")
      → Finds s mem name de (panic "iget: no inodes")

module _ (s : Dirs) (mem : Memory) (name de : ℕ) where
  got-Finds :
      (inum off : ℕ) (m : Memory) (t : Fs) (r : Result (ℕ × Itable))
      → Looked s.fs mem name 0 (some (inum, off))
      → Same s.fs t
      → Buffers mem name de m
      → Gets s.fs.ip.dev inum s.table r
      → Finds s mem name de
          (and_then (with_table (record s { fs = t }) r) λ k u. ok ((some (k, off), m), u))
  unfolding with_table
  got-Finds inum off m t _ l same b (again k lt has d n) =
      inode inum off k m t _ l same b (again k lt has d n)
  got-Finds inum off m t _ l same b (first k lt free others after) =
      inode inum off k m t _ l same b (first k lt free others after)
  got-Finds inum off m t _ l same b (none_left h) = no_place inum off l (none_left h)

  get_found-Finds :
      (r : Option (ℕ × ℕ) × Memory) (t : Fs)
      → Unique s.table
      → Found s.fs mem name de 0 r t
      → Finds s mem name de (get_found r (record s { fs = t }))
  unfolding get_found
  get_found-Finds (none, m) t unique (l, same, b) = nothing m t l same b
  get_found-Finds (some (inum, off), m) t unique (l, same, b) = got-Finds inum off m t _ l same b (
      subst (λ d. Gets s.fs.ip.dev inum s.table (iget d inum s.table))
        (sym (ap (λ x. x.dev) same.grows.ip)) (iget-Gets s.fs.ip.dev inum s.table unique))

  entry-Finds :
      (r : Result ((Option (ℕ × ℕ) × Memory) × Fs))
      → Unique s.table
      → Runs (Found s.fs mem name de 0) (λ d. ⊥) r
      → Finds s mem name de (and_then (with_fs s r) get_found)
  unfolding with_fs
  entry-Finds _ unique (returns q) = get_found-Finds _ _ unique q
  entry-Finds _ unique (crashes c) = absurd c

-- In a directory without missing blocks, where the name and the buffer are apart and the entries
-- of the table of inodes are for different inodes, dirlookup() returns, or panics only for want of
-- a free entry in the table. It finds the first entry of the directory that is in use and has the
-- name, with its offset, and iget() of its number; or there is none, and the table stays. The
-- bytes of the directory stay, and of memory it changes the buffer only.
pub dirlookup-Finds :
    (s : Dirs) (mem : Memory) (name de : ℕ)
    → IsDir s.fs
    → s.fs.ip.type ≡ t_dir
    → Buffers mem name de mem
    → Unique s.table
    → Finds s mem name de (dirlookup name de mem s)
unfolding dirlookup
dirlookup-Finds s mem name de d dir bufs unique =
    entry-Finds s mem name de (lookup_entry name de mem s.fs) unique
      (lookup_entry-Looked s.fs mem name de d dir bufs)
