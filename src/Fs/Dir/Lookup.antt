-- ===== src/Fs/Dir/Lookup.antt =====
-- dirlookup(): the entry of a name.
use os.Prelude.{
  ℕ, zero, suc, ◌+◌, ◌-◌, ◌*◌, ◌/◌, ◌%◌, ◌<◌, ◌≤◌, ◌≡◌, ◌≢◌, ◌⊎◌, inl, inr, ◌↔◌, refl, sym, ap, ◌∙◌,
  true, false, ◌&&◌, Option, none, some, ◌==◌, ltb, leb, if◌then◌else◌, arith, Bool-cases, ==_iff,
}
use mathlib.Core.Path.{subst}
use os.Kernel.Runs.{Runs, returns, Runs-bind, Runs-mono}
use os.Str.{Memory}
use os.Str.Text.{ended, ended-ext, strncmp-zero}
use os.Fs.{Fs}
use os.Fs.Content.Bytes.{file_byte, max_size}
use os.Fs.Dir.{dirsiz, t_dir, get_inum, namecmp, lookup_loop, lookup_entry}
use os.Fs.Dir.Entry.{
  IsDir, Same, Same-refl, Same-trans, Same-size, Same-IsDir, Loaded, read_entry-Loaded,
}

-- the number in the entry at `o`
abbrev pub entry_inum : Fs → ℕ → ℕ
entry_inum s o = file_byte s o + 256 * file_byte s (o + 1)

-- the entry is in use and has the name, up to the name's end or 14 bytes
abbrev pub IsEntry : Fs → Memory → ℕ → ℕ → Type 0
IsEntry s mem name o =
    (entry_inum s o ≢ 0)
    × ((k : ℕ) → k < dirsiz → ended mem name k ≡ false → mem (name + k) ≡ file_byte s (o + 2 + k))

-- What a search from `off` on finds: the first entry of the name, or that there is none.
pub data Looked (s : Fs) (mem : Memory) (name off : ℕ) : Option (ℕ × ℕ) → Type 0 where
  absent :
      ((o : ℕ) → off ≤ o → o < s.ip.size → o % 16 ≡ 0 → ¬ IsEntry s mem name o)
      → Looked s mem name off none
  present :
      (o inum : ℕ)
      → off ≤ o
      → o < s.ip.size
      → o % 16 ≡ 0
      → IsEntry s mem name o
      → inum ≡ entry_inum s o
      → ((p : ℕ) → off ≤ p → p < o → p % 16 ≡ 0 → ¬ IsEntry s mem name p)
      → Looked s mem name off (some (inum, o))

-- the name and `de` are apart, memory is bytes, and only `de` has changed
pub record Buffers (mem : Memory) (name de : ℕ) (mem' : Memory) : Type 0 where
  pub apart : (name + dirsiz ≤ de) ⊎ (de + 16 ≤ name)
  pub bytes : (a : ℕ) → mem' a < 256
  pub same : (a : ℕ) → (a < de) ⊎ (de + 16 ≤ a) → mem' a ≡ mem a

module _ (s : Fs) (mem : Memory) (name de off : ℕ) (d : IsDir s) (lt : off < s.ip.size)
    (al : off % 16 ≡ 0) (m m' : Memory) (bufs : Buffers mem name de m)
    (loaded : Loaded s de off m m') where
  pub loaded-Buffers : Buffers mem name de m'
  loaded-Buffers = record {
    apart = bufs.apart;
    bytes = λ a. elim (Bool-cases (leb de a && ltb a (de + 16))) [
      | inl e ↦
          let is : m' a ≡ file_byte s (off + (a - de)) = loaded a ∙ rw e refl in
          subst (λ n. n < 256) (sym is)
            (d.bytes (off + (a - de)) (ground (arith, lt, al, d.whole, d.bounded)))
      | inr e ↦
          let is : m' a ≡ m a = loaded a ∙ rw e refl in subst (λ n. n < 256) (sym is) (bufs.bytes a)
    ];
    same = λ a out.
        let e : (leb de a && ltb a (de + 16)) ≡ false = ground (arith, out) in
        loaded a
        ∙ (let f : (if leb de a && ltb a (de + 16) then file_byte s (off + (a - de)) else m a)
                ≡ m a =
              rw e refl in
            f)
        ∙ bufs.same a out;
  }

  loaded_byte : (i : ℕ) → i < 16 → m' (de + i) ≡ file_byte s (off + i)
  loaded_byte i il =
      let e : (leb de (de + i) && ltb (de + i) (de + 16)) ≡ true = ground (arith, il) in
      let f : (if leb de (de + i) && ltb (de + i) (de + 16)
            then file_byte s (off + (de + i - de))
            else m (de + i))
          ≡ file_byte s (off + i) =
        rw e (ap (file_byte s) (omega arith)) in
      loaded (de + i) ∙ f

  pub loaded-inum : get_inum m' de ≡ entry_inum s off
  loaded-inum =
      let a =
        ap m' {x = de} {y = de + 0} (omega arith)
        ∙ loaded_byte 0 (omega arith)
        ∙ ap (file_byte s) {x = off + 0} {y = off} (omega arith) in
      rw (a, loaded_byte 1 (omega arith)) refl

  name_byte : (k : ℕ) → k < dirsiz → m' (name + k) ≡ mem (name + k)
  name_byte k kl = loaded-Buffers.same (name + k) (ground (arith, bufs.apart, kl))

  -- namecmp() tells whether it is the entry
  namecmp-IsEntry : get_inum m' de ≢ 0 → (namecmp name (de + 2) m' ≡ 0) ↔ IsEntry s mem name off
  unfolding namecmp
  namecmp-IsEntry nz =
      let q = strncmp-zero name (de + 2) dirsiz m' loaded-Buffers.bytes in
      (
        λ z. (
          (λ w. nz (loaded-inum ∙ w)),
          λ k kl go. sym (name_byte k kl) ∙ q.0 z k kl (end_same k kl ∙ go) ∙ place k kl,
        ),
        λ e.
            q.1
              (λ k kl go. name_byte k kl ∙ e.1 k kl (sym (end_same k kl) ∙ go) ∙ sym (place k kl)),
      )
    where
      end_same : (k : ℕ) → k < dirsiz → ended m' name k ≡ ended mem name k
      end_same k kl = ended-ext mem m' name k (λ i il. name_byte i (omega (arith, il, kl)))

      place : (k : ℕ) → k < dirsiz → m' (de + 2 + k) ≡ file_byte s (off + 2 + k)
      place k kl =
          ap m' {x = de + 2 + k} {y = de + (2 + k)} (omega arith)
          ∙ loaded_byte (2 + k) (omega (arith, kl))
          ∙ ap (file_byte s) (omega arith)

-- the entry's bytes are those of the directory at first
pub Loaded-Same :
    (s t : Fs) (de off : ℕ) (m m' : Memory)
    → Same s t
    → off + 16 ≤ max_size
    → Loaded t de off m m'
    → Loaded s de off m m'
Loaded-Same s t de off m m' same room loaded a = elim (Bool-cases (leb de a && ltb a (de + 16))) [
  | inl e ↦
      let f = same.content (off + (a - de)) (ground (arith, e, room)) in loaded a ∙ rw (e, f) refl
  | inr e ↦ loaded a ∙ rw e refl
]

-- a search from the next entry on
Looked-skip :
    (s : Fs) (mem : Memory) (name off : ℕ) (r : Option (ℕ × ℕ))
    → off % 16 ≡ 0
    → ¬ IsEntry s mem name off
    → Looked s mem name (off + 16) r
    → Looked s mem name off r
Looked-skip s mem name off r al differs (absent none_after) = absent λ o le lt ao.
    elim (Bool-cases (o == off)) [
      | inl e ↦ subst (λ q. ¬ IsEntry s mem name q) (sym ((==_iff _ _).0 e)) differs
      | inr e ↦ none_after o (ground (arith, le, al, ao)) lt ao
    ]
Looked-skip s mem name off r al differs (present o inum le lt ao is n before) =
    present o inum (omega (arith, le)) lt ao is n λ p pl po ap. elim (Bool-cases (p == off)) [
      | inl e ↦ subst (λ q. ¬ IsEntry s mem name q) (sym ((==_iff _ _).0 e)) differs
      | inr e ↦ before p (ground (arith, pl, al, ap)) po ap
    ]

-- Where a search stands: the result, the directory and the memory.
abbrev pub Found : Fs → Memory → ℕ → ℕ → ℕ → Option (ℕ × ℕ) × Memory → Fs → Type 0
Found s mem name de off r t = Looked s mem name off r.0 × Same s t × Buffers mem name de r.1

lookup_loop-Looked :
    (s : Fs) (mem : Memory) (name de : ℕ)
    → IsDir s
    → (fuel off : ℕ) (m : Memory) (t : Fs) → Same s t
    → Buffers mem name de m
    → off % 16 ≡ 0
    → s.ip.size < off + 16 * fuel
    → off ≤ s.ip.size
    → Runs (Found s mem name de off) (λ d. ⊥) (lookup_loop fuel name de off m t)
unfolding lookup_loop
lookup_loop-Looked s mem name de d zero off m t same bufs al enough le =
    absurd (omega (arith, enough, le))
lookup_loop-Looked s mem name de d (suc fuel) off m t same bufs al enough le =
    let size = Same-size same in
    elim (Bool-cases (ltb off t.ip.size)) [
      | inr e ↦
          rw e
            (returns (absent (λ o lo lt ao. absurd (ground (arith, e, size, lo, lt))), same, bufs))
      | inl e ↦
          let lt : off < s.ip.size = ground (arith, e, size) in
          let room : off + 16 ≤ max_size = omega (arith, lt, al, d.bounded) in
          let next : off + 16 ≤ s.ip.size = omega (arith, lt, al, d.whole) in
          rw e (
            Runs-bind
              (read_entry-Loaded "dirlookup read" de off m t (Same-IsDir same d) al
                (ground (arith, e)))
              λ m' u (loaded, step).
                let here = Loaded-Same s t de off m m' same room loaded in
                let now = Same-trans same step in
                let bufs' = loaded-Buffers s mem name de off d lt al m m' bufs here in
                let inum = loaded-inum s mem name de off d lt al m m' bufs here in
                let named = namecmp-IsEntry s mem name de off d lt al m m' bufs here in
                let rest = λ (differs : ¬ IsEntry s mem name off).
                  Runs-mono {R = Found s mem name de off}
                    (lookup_loop-Looked s mem name de d fuel (off + 16) m' u now bufs'
                      (omega (arith, al)) (omega (arith, enough)) next)
                    (λ r v (l, q, b). (Looked-skip s mem name off r.0 al differs l, q, b))
                    (λ d q. q) in
                elim (Bool-cases (get_inum m' de == 0)) [
                  | inl z ↦ rw z (rest (λ is. is.0 (sym inum ∙ (==_iff _ _).0 z)))
                  | inr nz ↦
                      let ne : get_inum m' de ≢ 0 = ground (arith, nz) in
                      rw nz (elim (Bool-cases (namecmp name (de + 2) m' == 0)) [
                        | inl f ↦ rw f (
                            returns (
                              present off (get_inum m' de) (omega arith) lt al
                                  ((named ne).0 ((==_iff _ _).0 f)) inum
                                  (λ p lo po ap. absurd (omega (arith, lo, po))),
                              now,
                              bufs',
                            ))
                        | inr f ↦
                            rw f (
                              rest (λ is. absurd (let g = (named ne).1 is in ground (arith, f, g))))
                      ])
                ])
    ]

-- In a directory without missing blocks, and where the name and the buffer are apart, dirlookup()
-- returns, before its iget(). It finds the number and the offset of the first entry that is in use
-- and has the name, or that there is none. The bytes of the directory stay, and of memory it
-- changes the buffer only.
pub lookup_entry-Looked :
    (s : Fs) (mem : Memory) (name de : ℕ)
    → IsDir s
    → s.ip.type ≡ t_dir
    → Buffers mem name de mem
    → Runs (Found s mem name de 0) (λ d. ⊥) (lookup_entry name de mem s)
unfolding lookup_entry
lookup_entry-Looked s mem name de d dir bufs =
    let e : (s.ip.type == t_dir) ≡ true = ground (arith, dir) in
    rw e (
      lookup_loop-Looked s mem name de d (s.ip.size / 16 + 2) 0 mem s (Same-refl d.inv) bufs refl
        (omega arith) (omega arith))
