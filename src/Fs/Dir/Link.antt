-- ===== src/Fs/Dir/Link.antt =====
-- dirlink(): the entry that it adds.
use os.Prelude.{
  ℕ, ◌+◌, ◌-◌, ◌/◌, ◌%◌, ◌<◌, ◌≤◌, ◌≡◌, ◌⊎◌, inl, inr, refl, sym, ap, ◌∙◌, Bool, true, false, ◌&&◌,
  none, some, ◌==◌, ltb, leb, if◌then◌else◌, arith, Bool-cases, ==_iff,
}
use mathlib.Core.Path.{subst}
use os.Kernel.{ok}
use os.Kernel.Runs.{Runs, returns, Runs-bind}
use os.Str.{Memory}
use os.Str.Copy.{padded, strncpy-padded}
use os.Str.Text.{ended, ended-ext}
use os.Fs.{Fs, iblock}
use os.Fs.Bits.{in_use}
use os.Fs.Dinode.{Fits}
use os.Fs.Content.Bytes.{file_byte, max_size}
use os.Fs.Content.Round.{Wrote, Copies, IsFull}
use os.Fs.Content.Write.{Outside, Written, writei-Written, Fits-after, Apart-after, out_after}
use os.Fs.Dir.{dirsiz, kernel_copyin, get_inum, fill_entry, put_entry, add_entry}
use os.Fs.Dir.Entry.{IsDir, Same, Same-refl, Same-size}
use os.Fs.Dir.Lookup.{entry_inum, IsEntry, Looked, absent, present, Buffers}
use os.Fs.Dir.Empty.{Emptied, empty_loop-Emptied}

kernel_copyin-Copies : (mem : Memory) → Copies (kernel_copyin mem) mem
kernel_copyin-Copies mem src o m b = (refl, λ a. refl)

module _ (mem m : Memory) (name de inum : ℕ) (bufs : Buffers mem name de m)
    (fits : inum < 65536) where
  fill_entry-inum : get_inum (fill_entry name de inum m) de ≡ inum
  unfolding fill_entry
  fill_entry-inum = ground (arith, fits)

  fill_entry-name :
      (k : ℕ)
      → k < dirsiz
      → ended mem name k ≡ false
      → fill_entry name de inum m (de + 2 + k) ≡ mem (name + k)
  unfolding fill_entry
  fill_entry-name k lt go =
      let p = strncpy-padded (de + 2) name dirsiz m (de + 2 + k) (ground (arith, bufs.apart)) in
      let kept =
        λ (i : ℕ) (il : i < dirsiz). bufs.same (name + i) (ground (arith, bufs.apart, il)) in
      let end : ended m name (de + 2 + k - (de + 2)) ≡ false =
        ap (ended m name) {y = k} (omega arith)
        ∙ ended-ext mem m name k (λ i il. kept i (omega (arith, il, lt)))
        ∙ go in
      let at : name + (de + 2 + k - (de + 2)) ≡ name + k = omega arith in
      let within : (leb (de + 2) (de + 2 + k) && ltb (de + 2 + k) (de + 2 + dirsiz)) ≡ true =
        ground (arith, lt) in
      let value : padded (de + 2) name dirsiz m (de + 2 + k) ≡ mem (name + k) =
        rw (within, end, at) (kept k lt) in
      let one : (de + 2 + k == de) ≡ false = ground arith in
      let two : (de + 2 + k == de + 1) ≡ false = ground arith in rw (two, one) (p ∙ value)

-- a state that is the same but for new blocks
module _ (s t : Fs) (same : Same s t) where
  as_Wrote : Wrote (λ a. a) s 0 0 0 t
  as_Wrote = record {
    inv = same.grows.inv;
    sb = same.grows.sb;
    ip = same.grows.ip;
    used = same.grows.used;
    fresh = same.grows.fresh;
    content = λ p pl. same.content p pl ∙ ground arith;
  }

  Fits-same : Fits s.ip → Outside s (iblock s.ip.inum s.sb) → t.ip.size ≤ max_size → Fits t.ip
  Fits-same fits o le = Fits-after (λ a. a) s t 0 0 0 0 t.ip.size fits o as_Wrote le

  Outside-same :
      Fits s.ip
      → Outside s (iblock s.ip.inum s.sb)
      → t.ip.size ≤ max_size
      → Outside t (iblock t.ip.inum t.sb)
  Outside-same fits o le =
      let at : iblock t.ip.inum t.sb ≡ iblock s.ip.inum s.sb =
        ap (λ x. iblock x.inum t.sb) same.grows.ip ∙ ap (iblock s.ip.inum) same.grows.sb in
      record {
        within = rw (at, same.grows.sb) o.within;
        used = ap (in_use t) at ∙ same.grows.used _ o.within o.used;
        apart = Apart-after (λ a. a) s t 0 0 0 0 t.ip.size fits o as_Wrote le;
        out = out_after (λ a. a) s t 0 0 0 0 t.ip.size fits o as_Wrote le;
      }

-- What dirlink() leaves. The entry at `o` is one that was empty, or new at the end.
pub data Linked (s : Fs) (mem : Memory) (name inum : ℕ) : Bool → Fs → Type 0 where
  full : {t : Fs} → IsFull t → Linked s mem name inum false t
  linked :
      {t : Fs} (o : ℕ)
      → (o < s.ip.size → entry_inum s o ≡ 0)
      → Looked t mem name 0 (some (inum, o))
      → t.ip.size ≡ (if ltb s.ip.size (o + 16) then o + 16 else s.ip.size)
      → ((p : ℕ) → p < max_size → (p < o) ⊎ (o + 16 ≤ p) → file_byte t p ≡ file_byte s p)
      → Linked s mem name inum true t

none_of :
    {s : Fs} {mem : Memory} {name off : ℕ}
    → Looked s mem name off none
    → (o : ℕ) → off ≤ o
    → o < s.ip.size
    → o % 16 ≡ 0
    → ¬ IsEntry s mem name o
none_of (absent h) = h

module _ (s t u : Fs) (mem m : Memory) (name de inum : ℕ) (d : IsDir s) (low : inum < 65536)
    (pos : 0 < inum) (room : s.ip.size + 16 ≤ max_size) (new : Looked s mem name 0 none) (off : ℕ)
    (e : Emptied s mem name de 0 (off, m) t)
    (w : Written (fill_entry name de inum m) t off de 16 (some 16) u) (all : w.k ≡ 16) where
  outside_byte : (p : ℕ) → p < max_size → (p < off) ⊎ (off + 16 ≤ p) → file_byte u p ≡ file_byte s p
  outside_byte p pl out =
      let f : (leb off p && ltb p (off + w.k)) ≡ false = ground (arith, out, all) in
      w.content p pl ∙ rw f (e.same.content p pl)

  entry_byte : (i : ℕ) → i < 16 → file_byte u (off + i) ≡ fill_entry name de inum m (de + i)
  entry_byte i il =
      let f : (leb off (off + i) && ltb (off + i) (off + w.k)) ≡ true = ground (arith, il, all) in
      w.content (off + i) (omega (arith, il, e.within, room))
      ∙ rw f (ap (fill_entry name de inum m) (omega arith))

  entry_inum-off : entry_inum u off ≡ inum
  entry_inum-off =
      let a =
        ap (file_byte u) {x = off} {y = off + 0} (omega arith)
        ∙ entry_byte 0 (omega arith)
        ∙ ap (fill_entry name de inum m) {x = de + 0} {y = de} (omega arith) in
      rw (a, entry_byte 1 (omega arith)) (fill_entry-inum mem m name de inum e.buffers low)

  new-IsEntry : IsEntry u mem name off
  new-IsEntry = (
    (λ z. omega (arith, z, entry_inum-off, pos)),
    λ k kl go. sym (
        ap (file_byte u) {x = off + 2 + k} {y = off + (2 + k)} (omega arith)
        ∙ entry_byte (2 + k) (omega (arith, kl))
        ∙ ap (fill_entry name de inum m) {x = de + (2 + k)} {y = de + 2 + k} (omega arith)
        ∙ fill_entry-name mem m name de inum e.buffers low k kl go),
  )

  old-IsEntry : (p : ℕ) → p < off → p % 16 ≡ 0 → ¬ IsEntry u mem name p
  old-IsEntry p lt al is =
      let byte = λ (i : ℕ) (il : i < 16).
        outside_byte (p + i) (omega (arith, il, lt, e.within, room))
          (inl (omega (arith, il, lt, al, e.aligned))) in
      let first =
        ap (file_byte s) {x = p} {y = p + 0} (omega arith)
        ∙ sym (byte 0 (omega arith))
        ∙ ap (file_byte u) {x = p + 0} {y = p} (omega arith) in
      let inums : entry_inum s p ≡ entry_inum u p = rw (first, byte 1 (omega arith)) refl in
      none_of new p (omega arith) (omega (arith, lt, e.within)) al (
        (λ z. is.0 (sym inums ∙ z)),
        λ k kl go.
            is.1 k kl go
            ∙ ap (file_byte u) {x = p + 2 + k} {y = p + (2 + k)} (omega arith)
            ∙ byte (2 + k) (omega (arith, kl))
            ∙ ap (file_byte s) (omega arith),
      )

  new-Linked : Linked s mem name inum true u
  new-Linked =
      let size = Same-size e.same in
      linked off e.empty
        (present off inum (omega arith) (ground (arith, w.size, all, size, e.within)) e.aligned
          new-IsEntry (sym entry_inum-off) (λ p lo lt al. old-IsEntry p lt al))
        (ground (arith, w.size, all, size)) outside_byte

put_entry-Linked :
    (s t : Fs) (mem m : Memory) (name de inum off : ℕ)
    → IsDir s
    → Fits s.ip
    → Outside s (iblock s.ip.inum s.sb)
    → inum < 65536
    → 0 < inum
    → s.ip.size + 16 ≤ max_size
    → Looked s mem name 0 none
    → Emptied s mem name de 0 (off, m) t
    → Runs
        (λ r u. Linked s mem name inum r.0 u)
        (λ d. ⊥)
        (put_entry de (off, fill_entry name de inum m) t)
unfolding put_entry
put_entry-Linked s t mem m name de inum off d fits o low pos room new e =
    let size = Same-size e.same in
    let le : t.ip.size ≤ max_size = omega (arith, size, d.bounded) in
    let m2 = fill_entry name de inum m in
    Runs-bind
      (writei-Written (kernel_copyin m2) m2 de off 16 t (kernel_copyin-Copies m2) e.same.grows.inv
        (Fits-same s t e.same fits o le) (Outside-same s t e.same fits o le)
        (omega (arith, size, e.within)) le (omega (arith, e.within, room)))
      λ r u w.
        subst
          (λ q.
            Runs {A = Bool × Memory} (λ r u. Linked s mem name inum r.0 u) (λ d. ⊥)
              (ok ((elim q [ none ↦ false | some k ↦ k == 16 ], m2), u)))
          (sym w.result)
          (elim (Bool-cases (w.k == 16)) [
            | inl f ↦ rw f (
                returns (
                  new-Linked s t u mem m name de inum d low pos room new off e
                    (subst (λ q. Written m2 t off de 16 q u) (w.result ∙ ap some ((==_iff _ _).0 f))
                      w)
                    ((==_iff _ _).0 f)))
            | inr f ↦
                let q : IsFull u = elim w.why [
                  | inl k ↦ absurd (ground (arith, f, k))
                  | inr q ↦ q
                ] in
                rw f (returns (full q))
          ])

-- Let the directory have no missing blocks, room for one more entry in the largest file, and no
-- entry of the name; let its blocks be none of the bitmap and not the one with its copy on disk,
-- and the name and the buffer be apart. Then dirlink() of a number that fits in 16 bits and is not
-- 0 returns. If it returns 0, the search for the name finds the new entry, which was empty before
-- or is new at the end, and no other byte of the directory has changed. It returns -1 only if
-- every block is in use.
pub add_entry-Linked :
    (s : Fs) (mem : Memory) (name de inum : ℕ)
    → IsDir s
    → Fits s.ip
    → Outside s (iblock s.ip.inum s.sb)
    → Buffers mem name de mem
    → inum < 65536
    → 0 < inum
    → s.ip.size + 16 ≤ max_size
    → Looked s mem name 0 none
    → Runs (λ r u. Linked s mem name inum r.0 u) (λ d. ⊥) (add_entry name de inum mem s)
unfolding add_entry
add_entry-Linked s mem name de inum d fits o bufs low pos room new =
    Runs-bind
      (empty_loop-Emptied s mem name de d (s.ip.size / 16 + 2) 0 mem s (Same-refl d.inv) bufs refl
        (omega arith) (omega arith))
      λ (off, m) t e. put_entry-Linked s t mem m name de inum off d fits o low pos room new e
