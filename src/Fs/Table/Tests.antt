-- ===== src/Fs/Table/Tests.antt =====
-- A table with one inode, asked for again.
use os.Prelude.{ℕ, true, arith, update}
use os.Fs.{Inode}
use os.Fs.Table.{Itable, iget}
use os.Fs.Table.Unique.{Unique, Gets, iget-Gets}

abbrev entry : ℕ → ℕ → Inode
entry inum ref = record {
  dev = 1;
  inum = inum;
  ref = ref;
  valid = true;
  type = 2;
  major = 0;
  minor = 0;
  nlink = 1;
  size = 0;
  addrs = λ _. 0;
}

abbrev pub one_inode : Itable
one_inode = update (λ _. entry 0 0) 3 (entry 7 2)

pub one_inode-Unique : Unique one_inode
one_inode-Unique = record {
  small = λ k lt. ground arith;
  distinct = λ j k jl kl has also d n. ground (arith, has, also);
}

iget-Gets_example : Gets 1 7 one_inode (iget 1 7 one_inode)
iget-Gets_example = iget-Gets 1 7 one_inode one_inode-Unique
