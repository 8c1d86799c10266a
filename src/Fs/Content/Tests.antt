-- ===== src/Fs/Content/Tests.antt =====
-- The file of Fs/Tests: bytes are written to it and read back.
use os.Prelude.{ℕ, ◌+◌, ◌-◌, ◌≡◌, true, refl, some, ◌&&◌, ltb, leb, if◌then◌else◌, arith}
use os.Kernel.Runs.{Runs}
use os.Fs.{iblock, test_bit}
use os.Fs.Bits.{in_use}
use os.Fs.Tests.{small, small-Inv, small-Fits, small-slot, first_block}
use os.Fs.Content.{CopyIn, CopyOut, writei, readi}
use os.Fs.Content.Round.{Copies}
use os.Fs.Content.Write.{Outside}
use os.Fs.Content.Limit.{WrittenInOne, writei-WrittenInOne}
use os.Fs.Content.Read.{Delivers, IsRead, readable, readi-IsRead}

-- the source has byte `a` at address `a`
abbrev bytes : ℕ → ℕ
bytes a = a

abbrev copyin : CopyIn
copyin src o m b = (true, λ a. if leb o a && ltb a (o + m) then bytes (src + (a - o)) else b a)

copyin-Copies : Copies copyin bytes
copyin-Copies src o m b = (refl, λ a. refl)

abbrev copyout : CopyOut
copyout dst o m b mem =
    (true, λ a. if leb dst a && ltb a (dst + m) then b (o + (a - dst)) else mem a)

copyout-Delivers : Delivers copyout
copyout-Delivers dst o m b mem = (refl, λ a. refl)

-- the inode's copy is in block 2
small-Outside : Outside small (iblock small.ip.inum small.sb)
unfolding in_use test_bit
small-Outside = record {
  within = omega arith;
  used = refl;
  apart = λ j lt. omega (arith, first_block j lt);
  out = λ k lt. ground (arith, small-slot k);
}

writei-WrittenInOne_example :
    Runs (WrittenInOne bytes small 700 40 900) (λ d. ⊥) (writei copyin 40 700 900 small)
writei-WrittenInOne_example =
    writei-WrittenInOne copyin bytes 40 700 900 small copyin-Copies small-Inv small-Fits
      small-Outside (omega arith) (omega arith) (omega arith) (omega arith) (omega arith)

readi-IsRead_example :
    Runs
      (λ r t.
        (k : ℕ) × (r.0 ≡ some k) × IsRead small 100 8 (readable small 100 900) (λ _. 0) k r.1 t)
      (λ d. ⊥)
      (readi copyout 8 100 900 (λ _. 0) small)
readi-IsRead_example =
    readi-IsRead copyout 8 100 900 (λ _. 0) small copyout-Delivers small-Inv (omega arith)
      (omega arith) (omega arith)
