-- ===== src/Fs.antt =====
-- kernel/fs.c below the directories: the bitmap of blocks, the blocks of an inode and its copy on
-- disk. The state has the blocks as the running transaction sees them: bread() is a read of this
-- view, and log_write() with brelse() a write of it, which Bio and Log show of the cache and the
-- log. `ip` is the locked inode that a function works on.
pub mod Bits
mod Search
pub mod Alloc
pub mod Slots
mod Entries
pub mod Map
mod Drop
mod Clear
pub mod Trunc
pub mod Dinode
pub mod Content
pub mod Table
pub mod Dir
mod Tests
use os.Prelude.{
  ℕ, zero, suc, ◌+◌, ◌-◌, ◌*◌, ◌/◌, ◌%◌, ◌^◌, ◌<◌, Bool, true, false, not, ◌&&◌, ◌||◌, Option, none,
  some, ◌==◌, ltb, leb, if◌then◌else◌, update, u32,
}
use os.Kernel.{Block, Disk, Result, ok, panic, Prog, ◌>>=◌, ◌>>◌, and_then, modify}
use os.Log.{word, set_word}
use os.Str.{memset}

abbrev pub bsize : ℕ
bsize = 1024

abbrev pub ndirect : ℕ
ndirect = 12

abbrev pub nindirect : ℕ
nindirect = 256

-- bits of the bitmap in a block
abbrev pub bpb : ℕ
bpb = 8192

-- the fields of the super block that these functions read
pub record Super : Type 0 where
  pub size : ℕ
  pub ninodes : ℕ
  pub inodestart : ℕ
  pub bmapstart : ℕ

abbrev pub iblock : ℕ → Super → ℕ
iblock i sb = i / 16 + sb.inodestart

abbrev pub bblock : ℕ → Super → ℕ
bblock b sb = b / bpb + sb.bmapstart

-- `struct inode` without its lock
pub record Inode : Type 0 where
  pub dev : ℕ
  pub inum : ℕ
  pub ref : ℕ
  pub valid : Bool
  pub type : ℕ
  pub major : ℕ
  pub minor : ℕ
  pub nlink : ℕ
  pub size : ℕ
  pub addrs : ℕ → ℕ

pub record Fs : Type 0 where
  pub sb : Super
  pub disk : Disk
  pub ip : Inode

abbrev pub store : ℕ → Block → Fs → Fs
store b block s = record s { disk = update s.disk b block }

abbrev pub set_addr : ℕ → ℕ → Fs → Fs
set_addr k a s = record s { ip = record s.ip { addrs = update s.ip.addrs k a } }

-- x & (1 << k), x |= 1 << k and x &= ~(1 << k), by the digits of x
pub test_bit : ℕ → ℕ → Bool
test_bit x zero = x % 2 == 1
test_bit x (suc k) = test_bit (x / 2) k

unfoldable pub set_bit : ℕ → ℕ → ℕ
set_bit x zero = x / 2 * 2 + 1
set_bit x (suc k) = x % 2 + 2 * set_bit (x / 2) k

unfoldable pub clear_bit : ℕ → ℕ → ℕ
clear_bit x zero = x / 2 * 2
clear_bit x (suc k) = x % 2 + 2 * clear_bit (x / 2) k

unfoldable pub bzero : ℕ → Fs → Fs
bzero bno s = store bno (memset 0 0 bsize (s.disk bno)) s

-- the inner loop of balloc() from bit `bi` on: the first clear bit of a block of the bitmap
unfoldable pub find_bit : ℕ → ℕ → Block → ℕ → ℕ → Option ℕ
find_bit zero size bp b bi = none
find_bit (suc left) size bp b bi =
    let rest = find_bit left size bp b (bi + 1) in
    if not (ltb (b + bi) size)
    then none
    else if not (test_bit (bp (bi / 8)) (bi % 8))
    then some bi
    else rest

-- the outer loop of balloc() from block `b` of the file system on, and the `b` and `bi` that it
-- finds
unfoldable pub find_free : ℕ → ℕ → Fs → Option (ℕ × ℕ)
unfolding find_bit
find_free zero b s = none
find_free (suc left) b s =
    let rest = find_free left (b + bpb) s in
    elim (find_bit bpb s.sb.size (s.disk (bblock b s.sb)) b 0) [
      | some bi ↦ some (b, bi)
      | none ↦ rest
    ]

-- marks the bit and zeroes the block
unfoldable pub take_block : ℕ → ℕ → Fs → Fs
unfolding bzero set_bit
take_block b bi s =
    let bp = s.disk (bblock b s.sb) in
    bzero (b + bi) (store (bblock b s.sb) (update bp (bi / 8) (set_bit (bp (bi / 8)) (bi % 8))) s)

unfoldable pub balloc_found : Fs → Option (ℕ × ℕ) → Result (ℕ × Fs)
unfolding take_block
balloc_found s none = ok (0, s)
balloc_found s (some (b, bi)) = ok (b + bi, take_block b bi s)

-- the block, or 0; the outer loop has a round for each block of the bitmap
unfoldable pub balloc : Prog Fs ℕ
unfolding balloc_found find_free
balloc s = balloc_found s (find_free ((s.sb.size + (bpb - 1)) / bpb) 0 s)

unfoldable pub bfree : ℕ → Prog Fs (Unit {0})
unfolding clear_bit
bfree b s =
    let bp = s.disk (bblock b s.sb) in
    let bi = b % bpb in
    if not (test_bit (bp (bi / 8)) (bi % 8))
    then panic "freeing free block"
    else ok (tt, store (bblock b s.sb) (update bp (bi / 8) (clear_bit (bp (bi / 8)) (bi % 8))) s)

-- ip->addrs[k], with a new block if it is 0
unfoldable pub addr_or_new : ℕ → Prog Fs ℕ
unfolding balloc
addr_or_new k s =
    let new = (balloc >>= λ a t. if a == 0 then ok (0, t) else ok (a, set_addr k a t)) in
    if s.ip.addrs k == 0 then new s else ok (s.ip.addrs k, s)

-- a[bn] of the indirect block `ind`, with a new block if it is 0
unfoldable pub entry_or_new : ℕ → ℕ → Prog Fs ℕ
unfolding balloc
entry_or_new ind bn s =
    let new =
      (balloc >>= λ a t.
      if a == 0 then ok (0, t) else ok (a, store ind (set_word (t.disk ind) bn a) t)) in
    let addr = word (s.disk ind) bn in if addr == 0 then new s else ok (addr, s)

unfoldable pub bmap : ℕ → Prog Fs ℕ
unfolding addr_or_new entry_or_new
bmap bn =
    if ltb bn ndirect
    then addr_or_new bn
    else if ltb (bn - ndirect) nindirect
    then (addr_or_new ndirect >>= λ ind t.
        if ind == 0 then ok (0, t) else entry_or_new ind (bn - ndirect) t)
    else λ s. panic "bmap: out of range"

-- dip->addrs[k] = ip->addrs[k] and so on for `left` words; `at` is the first word of the dinode
unfoldable pub put_addrs : (ℕ → ℕ) → ℕ → ℕ → ℕ → Block → Block
unfolding set_word
put_addrs addrs at zero k b = b
put_addrs addrs at (suc left) k b =
    put_addrs addrs at left (k + 1) (set_word b (at + 3 + k) (addrs k))

-- the dinode that begins at word `at`; a word holds two shorts
unfoldable pub put_dinode : Inode → ℕ → Block → Block
unfolding put_addrs set_word
put_dinode ip at b = put_addrs ip.addrs at (ndirect + 1) 0 (
    set_word
      (set_word (set_word b at (ip.type + 2 ^ 16 * ip.major)) (at + 1)
        (ip.minor + 2 ^ 16 * ip.nlink))
      (at + 2) ip.size)

unfoldable pub iupdate : Fs → Fs
iupdate s =
    let b = iblock s.ip.inum s.sb in store b (put_dinode s.ip (16 * (s.ip.inum % 16)) (s.disk b)) s

unfoldable pub get_dinode : Block → ℕ → Inode → Inode
unfolding word
get_dinode b at ip = record ip {
  type = word b at % 2 ^ 16;
  major = word b at / 2 ^ 16;
  minor = word b (at + 1) % 2 ^ 16;
  nlink = word b (at + 1) / 2 ^ 16;
  size = word b (at + 2);
  addrs = λ k. if leb k ndirect then word b (at + 3 + k) else ip.addrs k;
}

-- ilock() once it has the lock
unfoldable pub ilock_read : Prog Fs (Unit {0})
ilock_read s =
    let ip = record (get_dinode (s.disk (iblock s.ip.inum s.sb)) (16 * (s.ip.inum % 16)) s.ip) {
      valid = true;
    } in
    if s.ip.valid
    then ok (tt, s)
    else if ip.type == 0
    then panic "ilock: no type"
    else ok (tt, record s { ip = ip })

-- the loop of itrunc() over ip->addrs from `i` on
unfoldable pub free_addrs : ℕ → ℕ → Prog Fs (Unit {0})
unfolding bfree
free_addrs zero i s = ok (tt, s)
free_addrs (suc left) i s =
    let free = (do bfree (s.ip.addrs i); modify (set_addr i 0); free_addrs left (i + 1)) in
    let rest = free_addrs left (i + 1) in if s.ip.addrs i == 0 then rest s else free s

-- the loop over the words of the indirect block from `j` on
unfoldable pub free_entries : ℕ → ℕ → ℕ → Prog Fs (Unit {0})
unfolding bfree
free_entries ind zero j s = ok (tt, s)
free_entries ind (suc left) j s =
    let free = (do bfree (word (s.disk ind) j); free_entries ind left (j + 1)) in
    let rest = free_entries ind left (j + 1) in if word (s.disk ind) j == 0 then rest s else free s

unfoldable pub free_indirect : Prog Fs (Unit {0})
free_indirect s =
    let ind = s.ip.addrs ndirect in
    let free = (do free_entries ind nindirect 0; bfree ind; modify (set_addr ndirect 0)) in
    if ind == 0 then ok (tt, s) else free s

unfoldable pub itrunc : Prog Fs (Unit {0})
itrunc = do
  free_addrs ndirect 0
  free_indirect
  modify λ s. iupdate (record s { ip = record s.ip { size = 0 } })
