-- ===== src/Fs/Dir/Tests.antt =====
-- The file system of Fs/Tests with a directory of two entries in its block 5: all of their bytes
-- are 7.
use os.Prelude.{
  ℕ, ◌+◌, ◌/◌, ◌<◌, ◌≡◌, inl, inr, refl, ◌∙◌, ◌==◌, if◌then◌else◌, update, arith, Bool-cases,
  ==_iff,
}
use os.Kernel.Runs.{Runs}
use os.Str.{Memory}
use os.Str.Text.{ended}
use os.Fs.{Fs, iblock, bsize, test_bit}
use os.Fs.Bits.{in_use}
use os.Fs.Slots.{Inv}
use os.Fs.Map.{slot_of, file_block}
use os.Fs.Dinode.{Fits}
use os.Fs.Content.Bytes.{file_byte, max_size}
use os.Fs.Content.Write.{Outside}
use os.Fs.Tests.{small, small-Inv, small-Fits, small-slot, first_block}
use os.Fs.Dir.{Dirs, dirlookup, add_entry}
use os.Fs.Dir.Entry.{IsDir}
use os.Fs.Dir.Lookup.{IsEntry, absent, Buffers}
use os.Fs.Table.Tests.{one_inode, one_inode-Unique}
use os.Fs.Dir.Get.{Finds, dirlookup-Finds}
use os.Fs.Dir.Link.{Linked, add_entry-Linked}

abbrev folder : Fs
folder = record small { ip = record small.ip { type = 1; size = 32 } }

folder-Inv : Inv folder
unfolding in_use
folder-Inv = record {
  ready = record {
    room = small-Inv.ready.room;
    boot = small-Inv.ready.boot;
    bitmap = small-Inv.ready.bitmap;
  };
  good = λ k lt nz.
      let g = small-Inv.good k lt nz in
      record { within = g.within; used = g.used; apart = g.apart };
  distinct = small-Inv.distinct;
}

folder-byte :
    (p : ℕ) → p < max_size → file_byte folder p ≡ (if slot_of (p / bsize) == 0 then 7 else 0)
unfolding file_byte
folder-byte p lt = elim (Bool-cases (slot_of (p / bsize) == 0)) [
  | inl e ↦ rw ((==_iff _ _).0 e) refl
  | inr e ↦
      let z : file_block folder (p / bsize) ≡ 0 = small-slot (slot_of (p / bsize)) ∙ rw e refl in
      rw (z, e) refl
]

folder-IsDir : IsDir folder
folder-IsDir = record {
  inv = folder-Inv;
  whole = refl;
  bounded = omega arith;
  blocks = λ p lt z.
      let b : p / bsize ≡ 0 = omega (arith, lt) in
      ground (arith, small-slot (slot_of (p / bsize)), b, z);
  bytes = λ p lt. ground (arith, folder-byte p lt);
}

abbrev sevens : Memory
sevens a = 7

sevens-Buffers : Buffers sevens 100 200 sevens
sevens-Buffers = record { apart = inl (omega arith); bytes = λ a. omega arith; same = λ a o. refl }

-- the directory beside the table of Fs/Table/Tests
abbrev both : Dirs
both = record { fs = folder; table = one_inode }

dirlookup-Finds_example : Finds both sevens 100 200 (dirlookup 100 200 sevens both)
dirlookup-Finds_example =
    dirlookup-Finds both sevens 100 200 folder-IsDir refl sevens-Buffers one_inode-Unique

-- the name x at address 100
abbrev new_name : Memory
new_name = update (λ _. 0) 100 120

new_name-Buffers : Buffers new_name 100 200 new_name
new_name-Buffers = record {
  apart = inl (omega arith);
  bytes = λ a. ground arith;
  same = λ a o. refl;
}

folder-Fits : Fits folder.ip
folder-Fits = record {
  type = omega arith;
  major = omega arith;
  minor = omega arith;
  nlink = omega arith;
  size = omega arith;
  addrs = small-Fits.addrs;
}

folder-Outside : Outside folder (iblock folder.ip.inum folder.sb)
unfolding in_use test_bit
folder-Outside = record {
  within = omega arith;
  used = refl;
  apart = λ j lt. omega (arith, first_block j lt);
  out = λ k lt. ground (arith, small-slot k);
}

no-IsEntry : (o : ℕ) → o < 32 → ¬ IsEntry folder new_name 100 o
unfolding ended
no-IsEntry o lt is =
    let b : (o + 2 + 0) / bsize ≡ 0 = omega (arith, lt) in
    ground (arith, is.1 0 (omega arith) refl, folder-byte (o + 2 + 0) (omega (arith, lt)), b)

add_entry-Linked_example :
    Runs (λ r u. Linked folder new_name 100 9 r.0 u) (λ d. ⊥) (add_entry 100 200 9 new_name folder)
add_entry-Linked_example =
    add_entry-Linked folder new_name 100 200 9 folder-IsDir folder-Fits folder-Outside
      new_name-Buffers (omega arith) (omega arith) (omega arith)
      (absent (λ o le lt al. no-IsEntry o lt))
