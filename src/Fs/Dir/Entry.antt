-- ===== src/Fs/Dir/Entry.antt =====
-- What a directory is, and the read of one of its entries.
use Prim.Native.String.{String}
use os.Prelude.{
  ℕ, ◌+◌, ◌-◌, ◌/◌, ◌%◌, ◌<◌, ◌≤◌, ◌≡◌, ◌≢◌, inl, inr, refl, sym, ap, ◌∙◌, ◌&&◌, ◌==◌, ltb, leb,
  if◌then◌else◌, arith, Bool-cases, ==_iff,
}
use mathlib.Core.Path.{subst}
use os.Kernel.Runs.{Runs, returns, Runs-bind}
use os.Str.{Memory}
use os.Fs.{Fs, bsize}
use os.Fs.Slots.{Inv, Grows, Grows-refl, Grows-trans}
use os.Fs.Map.{slot_of-bound, file_block}
use os.Fs.Content.Bytes.{file_byte, max_size}
use os.Fs.Content.Read.{Delivers, readable, readi-IsRead}
use os.Fs.Dir.{kernel_copyout, read_entry}

-- a directory: whole entries of bytes, and none of its blocks is missing
pub record IsDir (s : Fs) : Type 0 where
  pub inv : Inv s
  pub whole : s.ip.size % 16 ≡ 0
  pub bounded : s.ip.size ≤ max_size
  pub blocks : (p : ℕ) → p < s.ip.size → file_block s (p / bsize) ≢ 0
  pub bytes : (p : ℕ) → p < max_size → file_byte s p < 256

-- the same directory, read at most
pub record Same (s t : Fs) : Type 0 where
  pub grows : Grows s t
  pub content : (p : ℕ) → p < max_size → file_byte t p ≡ file_byte s p

pub Same-refl : {s : Fs} → Inv s → Same s s
Same-refl inv = record { grows = Grows-refl inv; content = λ p pl. refl }

pub Same-trans : {s t u : Fs} → Same s t → Same t u → Same s u
Same-trans p q = record {
  grows = Grows-trans p.grows q.grows;
  content = λ x xl. q.content x xl ∙ p.content x xl;
}

pub Same-size : {s t : Fs} → Same s t → t.ip.size ≡ s.ip.size
Same-size e = ap (λ x. x.size) e.grows.ip

pub Same-IsDir : {s t : Fs} → Same s t → IsDir s → IsDir t
Same-IsDir {s} {t} e d =
    let size = Same-size e in
    record {
      inv = e.grows.inv;
      whole = ap {A = ℕ} (λ n. n % 16) size ∙ d.whole;
      bounded = subst (λ n. n ≤ max_size) (sym size) d.bounded;
      blocks = λ p lt z.
          let before = d.blocks p (subst (λ n. p < n) size lt) in
          let here = slot_of-bound (p / bsize) (omega (arith, lt, size, d.bounded)) in
          before (sym (e.grows.kept _ here.0 before) ∙ z);
      bytes = λ p pl. subst (λ n. n < 256) (sym (e.content p pl)) (d.bytes p pl);
    }

-- an entry of the directory in memory
abbrev pub Loaded : Fs → ℕ → ℕ → Memory → Memory → Type 0
Loaded s de off mem mem' =
    (a : ℕ) → mem' a ≡ (if leb de a && ltb a (de + 16) then file_byte s (off + (a - de)) else mem a)

kernel_copyout-Delivers : Delivers kernel_copyout
kernel_copyout-Delivers dst o m b mem = (refl, λ a. refl)

pub read_entry-Loaded :
    (text : String) (de off : ℕ) (mem : Memory) (s : Fs)
    → IsDir s
    → off % 16 ≡ 0
    → off < s.ip.size
    → Runs (λ mem' t. Loaded s de off mem mem' × Same s t) (λ d. ⊥) (read_entry text de off mem s)
unfolding read_entry
read_entry-Loaded text de off mem s d al lt =
    let all : readable s off 16 ≡ 16 = omega (arith, d.whole, al, lt) in
    Runs-bind
      (readi-IsRead kernel_copyout de off 16 mem s kernel_copyout-Delivers d.inv (omega (arith, lt))
        d.bounded (omega (arith, lt, d.bounded)))
      λ r t (k, is, read).
        let done : k ≡ 16 = elim (Bool-cases (k == 16)) [
          | inl e ↦ (==_iff _ _).0 e
          | inr e ↦ elim read.why [
            | inl f ↦ f ∙ all
            | inr (z, full) ↦
                absurd (d.blocks (off + k) (ground (arith, read.le, all, d.whole, al, lt)) z)
          ]
        ] in
        rw (is, done)
          (returns (
            (λ a.
                read.memory a
                ∙ ap {A = ℕ}
                    (λ n.
                      if leb de a && ltb a (de + n) then file_byte s (off + (a - de)) else mem a)
                    done),
            record { grows = read.grows; content = read.content },
          ))
