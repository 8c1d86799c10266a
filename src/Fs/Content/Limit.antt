-- ===== src/Fs/Content/Limit.antt =====
-- writei() as filewrite() of kernel/file.c calls it: a write that one transaction has room for.
use os.Prelude.{ℕ, ◌+◌, ◌-◌, ◌*◌, ◌/◌, ◌≤◌, ◌≡◌, ◌≢◌, Option, List, [], ◌∷◌, length, arith}
use mathlib.Core.Path.{subst}
use os.Kernel.Runs.{Runs, Runs-mono}
use os.Kalloc.Chain.{NotIn}
use os.Log.{max_op_blocks}
use os.Fs.{Fs, iblock, bsize, ndirect}
use os.Fs.Slots.{slot, Inv}
use os.Fs.Map.{file_block}
use os.Fs.Dinode.{Fits}
use os.Fs.Content.{CopyIn, writei}
use os.Fs.Content.Bytes.{max_size}
use os.Fs.Content.Round.{Copies}
use os.Fs.Content.Write.{Outside, Written, writei-Written}

-- `max` of filewrite()
abbrev pub write_max : ℕ
write_max = (max_op_blocks - 1 - 1 - 2) / 2 * bsize

-- What was written, and the blocks that may have changed: no more than an operation may log.
pub record WrittenInOne (bytes : ℕ → ℕ) (s : Fs) (off src n : ℕ) (r : Option ℕ) (u : Fs)
    : Type 0 where
  pub written : Written bytes s off src n r u
  pub blocks : List ℕ
  pub few : length blocks ≤ max_op_blocks
  pub others : (m : ℕ) → NotIn m blocks → u.disk m ≡ s.disk m

-- the inode's block, the indirect block, the bitmap and the blocks of the bytes
touched : Fs → ℕ → Fs → List ℕ
touched s off u =
    iblock s.ip.inum s.sb
    ∷ slot u ndirect
    ∷ s.sb.bmapstart
    ∷ (s.sb.bmapstart + 1)
    ∷ (s.sb.bmapstart + 2)
    ∷ (s.sb.bmapstart + 3)
    ∷ file_block u (off / bsize)
    ∷ file_block u (off / bsize + 1)
    ∷ file_block u (off / bsize + 2)
    ∷ file_block u (off / bsize + 3)
    ∷ []

Written-WrittenInOne :
    {bytes : ℕ → ℕ} {s : Fs} {off src n : ℕ} {r : Option ℕ} {u : Fs}
    → n ≤ write_max
    → s.sb.size ≤ 32768
    → Written bytes s off src n r u
    → WrittenInOne bytes s off src n r u
unfolding touched
Written-WrittenInOne {bytes} {s} {off} {src} {n} {r} {u} short small w = record {
  written = w;
  blocks = touched s off u;
  few = omega arith;
  others = λ m (i, (ind, (m0, (m1, (m2, (m3, (d0, (d1, (d2, (d3, _)))))))))).
      w.frame m i (λ j lt e. ground (arith, small, lt, e, m0, m1, m2, m3)) (λ _. ind)
        (λ q lo hi _ e.
          let apart = λ (b : ℕ) (other : m ≢ file_block u b) (is : q / bsize ≡ b).
            other (subst (λ c. m ≡ file_block u c) is e) in
          ground (
            arith,
            short,
            lo,
            hi,
            w.le,
            apart (off / bsize) d0,
            apart (off / bsize + 1) d1,
            apart (off / bsize + 2) d2,
            apart (off / bsize + 3) d3,
          ));
}

-- Let the copy not fail, the blocks of the inode be in use, distinct and none of the bitmap, its
-- copy on disk be in another block in use, and the range begin in the file or at its end, fit in
-- the largest file and have at most the 3072 bytes that filewrite() writes in a transaction, on a
-- disk with at most four blocks of bitmap. Then writei() changes at most 10 blocks, as many as
-- log_write() lets the operation log, and returns a number of bytes: all of them, or fewer if
-- every block is in use. The file then has these bytes of the source from `off` on and all else as
-- before, its size has grown to hold them, and the copy of the inode on disk is the one in memory.
-- That the cache has a buffer for each block that is read is taken for granted.
pub writei-WrittenInOne :
    (copyin : CopyIn) (bytes : ℕ → ℕ) (src off n : ℕ) (s : Fs)
    → Copies copyin bytes
    → Inv s
    → Fits s.ip
    → Outside s (iblock s.ip.inum s.sb)
    → off ≤ s.ip.size
    → s.ip.size ≤ max_size
    → off + n ≤ max_size
    → n ≤ write_max
    → s.sb.size ≤ 32768
    → Runs (WrittenInOne bytes s off src n) (λ d. ⊥) (writei copyin src off n s)
writei-WrittenInOne copyin bytes src off n s copies inv fits o inside bounded room short small =
    Runs-mono (writei-Written copyin bytes src off n s copies inv fits o inside bounded room)
      (λ r u w. Written-WrittenInOne short small w) (λ d q. q)
