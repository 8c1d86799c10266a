-- ===== src/Fs/Table.antt =====
-- The table of inodes of kernel/fs.c: iget() and idup(), each one critical section under
-- itable.lock. A pointer to itable.inode[k] is k.
pub mod Unique
pub mod Tests
use os.Prelude.{
  ℕ, zero, suc, ◌+◌, Bool, false, not, ◌&&◌, Option, none, some, ◌==◌, if◌then◌else◌, update, u32,
}
use os.Kernel.{Result, ok, panic, Prog}
use os.File.{is_positive}
use os.Fs.{Inode}

abbrev pub ninode : ℕ
ninode = 50

abbrev pub Itable : Type 0
Itable = ℕ → Inode

-- ip->ref > 0 && ip->dev == dev && ip->inum == inum
abbrev pub is_for : ℕ → ℕ → Inode → Bool
is_for dev inum ip = is_positive ip.ref && ip.dev == dev && ip.inum == inum

-- what the loop of iget() ends with: the entry for the inode, or `empty`
pub data Scan : Type 0 where
  cached : ℕ → Scan
  missing : Option ℕ → Scan

abbrev pub remember : Option ℕ → ℕ → Inode → Option ℕ
remember (some e) k ip = some e
remember none k ip = if ip.ref == 0 then some k else none

-- `left` rounds of the loop from entry `k` on
unfoldable pub scan : ℕ → ℕ → ℕ → ℕ → Option ℕ → Itable → Scan
scan dev inum zero k empty t = missing empty
scan dev inum (suc left) k empty t =
    let rest = scan dev inum left (k + 1) (remember empty k (t k)) t in
    if is_for dev inum (t k) then cached k else rest

abbrev pub add_ref : ℕ → Itable → Itable
add_ref k t = update t k (record (t k) { ref = u32 ((t k).ref + 1) })

abbrev pub recycle : ℕ → ℕ → ℕ → Itable → Itable
recycle dev inum k t = update t k (record (t k) { dev = dev; inum = inum; ref = 1; valid = false })

unfoldable pub iget_scanned : ℕ → ℕ → Scan → Prog Itable ℕ
iget_scanned dev inum (cached k) t = ok (k, add_ref k t)
iget_scanned dev inum (missing none) t = panic "iget: no inodes"
iget_scanned dev inum (missing (some k)) t = ok (k, recycle dev inum k t)

unfoldable pub iget : ℕ → ℕ → Prog Itable ℕ
iget dev inum t = iget_scanned dev inum (scan dev inum ninode 0 none t) t

unfoldable pub idup : ℕ → Prog Itable ℕ
idup k t = ok (k, add_ref k t)
