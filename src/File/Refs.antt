-- ===== src/File/Refs.antt =====
-- The counts of references, for any sequence of calls by those who have references.
use os.Prelude.{
  ℕ, zero, suc, ◌+◌, ◌-◌, ◌^◌, ◌<◌, ◌≤◌, ◌≡◌, ◌≢◌, ◌⊎◌, inl, inr, refl, sym, ap, ◌∙◌, true, false,
  Option, none, some, ◌==◌, ltb, if◌then◌else◌, update, arith, Bool-cases, ==_iff, u32,
}
use mathlib.Core.Path.{subst}
use os.Kernel.{Result, ok, panic, sleeps, crashed}
use os.File.{
  fd_none, File, is_positive, Ftable, nfile, set_ref, alloc_loop, filealloc, filedup, fileclose,
  Release, nothing, pipeclose, iput, release_of, FileType, fd_pipe, fd_inode, fd_device,
}

-- the table, and how many references to each entry there are in descriptors and running calls
pub record Users : Type 0 where
  pub table : Ftable
  pub held : ℕ → ℕ

-- filedup() and fileclose() are called with a reference; who has one sets the fields of a new file.
-- There are at most 2^31 - 1 references to an entry.
pub data Step (s : Users) : Users → Type 0 where
  alloc :
      (k : ℕ)
      → (filealloc s.table).0 ≡ some k
      → Step s (record { table = (filealloc s.table).1; held = update s.held k 1 })
  dup :
      (k : ℕ) (t : Ftable)
      → 0 < s.held k
      → s.held k + 1 < 2 ^ 31
      → filedup k s.table ≡ ok (tt, t)
      → Step s (record { table = t; held = update s.held k (s.held k + 1) })
  close :
      (k : ℕ) (r : Release) (t : Ftable)
      → 0 < s.held k
      → fileclose k s.table ≡ ok (r, t)
      → Step s (record { table = t; held = update s.held k (s.held k - 1) })
  fill :
      (k : ℕ) (f : File)
      → 0 < s.held k
      → f.ref ≡ (s.table k).ref
      → Step s (record s { table = update s.table k f })

pub data Reach (s : Users) : Users → Type 0 where
  start : Reach s s
  step : {t u : Users} → Reach s t → Step t u → Reach s u

-- the table of a new kernel
abbrev pub IsNew : Users → Type 0
IsNew s = (k : ℕ) → ((s.table k).ref ≡ 0) × (s.held k ≡ 0)

record Inv (s : Users) : Type 0 where
  count : (k : ℕ) → (s.table k).ref ≡ s.held k
  small : (k : ℕ) → s.held k < 2 ^ 31
  inside : (k : ℕ) → nfile ≤ k → s.held k ≡ 0

-- what filealloc() finds
alloc_loop-found :
    (left k : ℕ) (t : Ftable)
    → ((alloc_loop left k t ≡ (none, t)) × ((j : ℕ) → k ≤ j → j < k + left → (t j).ref ≢ 0))
      ⊎ ((j : ℕ) × (alloc_loop left k t ≡ (some j, set_ref j 1 t))
          × (j < k + left)
          × ((t j).ref ≡ 0))
unfolding alloc_loop
alloc_loop-found zero k t = inl (refl, λ j ge lt. absurd (omega (arith, ge, lt)))
alloc_loop-found (suc left) k t = elim (Bool-cases ((t k).ref == 0)) [
  | inl e ↦ rw e (inr (k, refl, omega arith, (==_iff _ _).0 e))
  | inr e ↦ rw e (elim (alloc_loop-found left (k + 1) t) [
    | inl (is, busy) ↦ inl (
      is,
      λ j ge lt. elim (Bool-cases (j == k)) [
        | inl f ↦
            let same : j ≡ k = (==_iff _ _).0 f in λ z. ground (arith, ap (λ i. (t i).ref) same, z)
        | inr f ↦ busy j (ground (arith, ge)) (omega (arith, lt))
      ],
    )
    | inr (j, is, lt, free) ↦ inr (j, is, omega (arith, lt), free)
  ])
]

-- the two calls of one with a reference
module _ (s : Users) (inv : Inv s) (k : ℕ) (has : 0 < s.held k) where
  filedup-ok : s.held k + 1 < 2 ^ 31 → filedup k s.table ≡ ok (tt, set_ref k (s.held k + 1) s.table)
  unfolding filedup
  filedup-ok room =
      let pos : is_positive (s.held k) ≡ true = ground (arith, has, room) in
      let sum : u32 (s.held k + 1) ≡ s.held k + 1 = omega (arith, room) in
      rw (inv.count k, pos, sum) refl

  fileclose-ok :
      ((1 < s.held k) × (fileclose k s.table ≡ ok (nothing, set_ref k (s.held k - 1) s.table)))
      ⊎ ((s.held k ≡ 1)
          × (fileclose k s.table
              ≡ ok (
                release_of (s.table k).type (s.table k),
                update s.table k (record (s.table k) { ref = 0; type = fd_none }),
              )))
  unfolding fileclose
  fileclose-ok =
      let pos : is_positive (s.held k) ≡ true = ground (arith, has, inv.small k) in
      let less : u32 (s.held k + 2 ^ 32 - 1) ≡ s.held k - 1 = omega (arith, has, inv.small k) in
      elim (Bool-cases (s.held k == 1)) [
        | inl e ↦
            let last : is_positive (s.held k - 1) ≡ false = ground arith in
            inr ((==_iff _ _).0 e, rw (inv.count k, pos, less, last) refl)
        | inr e ↦
            let more : is_positive (s.held k - 1) ≡ true = ground (arith, has, inv.small k) in
            inl (ground (arith, has), rw (inv.count k, pos, less, more) refl)
      ]

  inside_table : k < nfile
  inside_table = elim (Bool-cases (ltb k nfile)) [
    | inl e ↦ ground arith
    | inr e ↦ absurd (omega (arith, has, inv.inside k (ground arith)))
  ]

-- one count has changed
counted :
    (s : Users) (k n : ℕ) (t : Ftable)
    → Inv s
    → k < nfile
    → n < 2 ^ 31
    → ((j : ℕ) → (t j).ref ≡ (if j == k then n else (s.table j).ref))
    → Inv (record { table = t; held = update s.held k n })
counted s k n t inv lt small refs = record {
  count = λ j. refs j ∙ ap {A = ℕ} (λ r. if j == k then n else r) (inv.count j);
  small = λ j. elim (Bool-cases (j == k)) [ inl e ↦ rw e small | inr e ↦ rw e (inv.small j) ];
  inside = λ j le. let ne : (j == k) ≡ false = ground (arith, le, lt) in rw ne (inv.inside j le);
}

set_ref-ref : (t : Ftable) (k n j : ℕ) → (set_ref k n t j).ref ≡ (if j == k then n else (t j).ref)
set_ref-ref t k n j = elim (Bool-cases (j == k)) [ inl e ↦ rw e refl | inr e ↦ rw e refl ]

cleared-ref :
    (t : Ftable) (k j : ℕ)
    → (update t k (record (t k) { ref = 0; type = fd_none }) j).ref
      ≡ (if j == k then 0 else (t j).ref)
cleared-ref t k j = elim (Bool-cases (j == k)) [ inl e ↦ rw e refl | inr e ↦ rw e refl ]

abbrev entry_of : Option ℕ → ℕ
entry_of none = 0
entry_of (some k) = k

-- the state in which a call returns
state_of : {A : Type 0} → Ftable → Result (A × Ftable) → Ftable
state_of t (ok (a, u)) = u
state_of t (panic m) = t
state_of t sleeps = t
state_of t (crashed d) = t

Step-Inv : (s t : Users) → Inv s → Step s t → Inv t
unfolding filealloc state_of
Step-Inv s t inv (alloc k is) = elim (alloc_loop-found nfile 0 s.table) [
  | inl (e, _) ↦ absurd (ground (arith, ap (λ r. r.0) e, is))
  | inr (j, e, lt, free) ↦
      let same : j ≡ k = ap entry_of (sym (ap (λ r. r.0) e) ∙ is) in
      counted s k 1 (filealloc s.table).1 inv (subst (λ i. i < nfile) same (omega (arith, lt)))
        (omega arith)
        (λ i.
          ap (λ r. (r.1 i).ref) e
          ∙ set_ref-ref s.table j 1 i
          ∙ ap {A = ℕ} (λ m. if i == m then 1 else (s.table i).ref) same)
]
Step-Inv s t inv (dup k u has room is) =
    let e : set_ref k (s.held k + 1) s.table ≡ u =
      ap (state_of s.table) (sym (filedup-ok s inv k has room) ∙ is) in
    counted s k (s.held k + 1) u inv (inside_table s inv k has) room
      (λ j. ap (λ v. (v j).ref) (sym e) ∙ set_ref-ref s.table k (s.held k + 1) j)
Step-Inv s t inv (close k r u has is) =
    counted s k (s.held k - 1) u inv (inside_table s inv k has) (omega (arith, inv.small k))
      (elim (fileclose-ok s inv k has) [
        | inl (_, e) ↦ λ j.
            ap (λ v. (v j).ref) (ap (state_of s.table) (sym is ∙ e))
            ∙ set_ref-ref s.table k (s.held k - 1) j
        | inr (one, e) ↦ λ j.
            ap (λ v. (v j).ref) (ap (state_of s.table) (sym is ∙ e))
            ∙ cleared-ref s.table k j
            ∙ ap {A = ℕ} (λ m. if j == k then m else (s.table j).ref) (omega (arith, one))
      ])
Step-Inv s t inv (fill k f has same) = record {
  count = λ j. elim (Bool-cases (j == k)) [
    | inl e ↦
        let is : j ≡ k = (==_iff _ _).0 e in
        rw e (same ∙ ap (λ i. (s.table i).ref) (sym is) ∙ inv.count j)
    | inr e ↦ rw e (inv.count j)
  ];
  small = inv.small;
  inside = inv.inside;
}

Reach-Inv : (s t : Users) → IsNew s → Reach s t → Inv t
Reach-Inv s t new start = record {
  count = λ k. (new k).0 ∙ sym (new k).1;
  small = λ k. omega (arith, (new k).1);
  inside = λ k le. (new k).1;
}
Reach-Inv s u new (step r last) = Step-Inv _ u (Reach-Inv s _ new r) last

-- what fileclose() lets go of with the last reference to a file
pub data LetsGo (f : File) : Release → Type 0 where
  of_nothing : f.type ≡ fd_none → LetsGo f nothing
  of_pipe : f.type ≡ fd_pipe → LetsGo f (pipeclose f.pipe f.writable)
  of_inode : (f.type ≡ fd_inode) ⊎ (f.type ≡ fd_device) → LetsGo f (iput f.ip)

release_of-LetsGo : (type : FileType) (f : File) → f.type ≡ type → LetsGo f (release_of type f)
unfolding release_of
release_of-LetsGo fd_none f e = of_nothing e
release_of-LetsGo fd_pipe f e = of_pipe e
release_of-LetsGo fd_inode f e = of_inode (inl e)
release_of-LetsGo fd_device f e = of_inode (inr e)

-- The calls do what those who have references rely on.
pub record Sound (s : Users) : Type 0 where
  pub alloc :
      ((filealloc s.table ≡ (none, s.table)) × ((k : ℕ) → k < nfile → 0 < s.held k))
      ⊎ ((k : ℕ) × (filealloc s.table ≡ (some k, update s.table k (record (s.table k) { ref = 1 })))
          × (k < nfile)
          × (s.held k ≡ 0))
  pub dup :
      (k : ℕ)
      → 0 < s.held k
      → s.held k + 1 < 2 ^ 31
      → filedup k s.table ≡ ok (tt, update s.table k (record (s.table k) { ref = s.held k + 1 }))
  pub close :
      (k : ℕ)
      → 0 < s.held k
      → ((1 < s.held k)
          × (fileclose k s.table
              ≡ ok (nothing, update s.table k (record (s.table k) { ref = s.held k - 1 }))))
        ⊎ ((s.held k ≡ 1)
            × (r : Release) × LetsGo (s.table k) r
            × (fileclose k s.table
                ≡ ok (r, update s.table k (record (s.table k) { ref = 0; type = fd_none }))))

-- In every state that calls of filealloc(), filedup() and fileclose() reach from the table of a
-- new kernel, where only those who have a reference pass it to the last two and each entry has
-- fewer than 2^31: filealloc() gives out an entry to which there is no reference, or 0 only if
-- there is one to each of the 100; filedup() and fileclose() do not panic; and fileclose() frees
-- the entry exactly with the last reference, and then calls pipeclose() for the file's end of its
-- pipe if the file is a pipe, iput() for its inode if it is an inode or a device, and else
-- neither.
pub fileclose-Sound : (s t : Users) → IsNew s → Reach s t → Sound t
unfolding filealloc
fileclose-Sound s t new r =
    let inv = Reach-Inv s t new r in
    record {
      alloc = elim (alloc_loop-found nfile 0 t.table) [
        | inl (e, busy) ↦
            inl (e, λ k lt. ground (arith, inv.count k, busy k (omega arith) (omega (arith, lt))))
        | inr (k, e, lt, free) ↦ inr (k, e, omega (arith, lt), sym (inv.count k) ∙ free)
      ];
      dup = λ k has room. filedup-ok t inv k has room;
      close = λ k has. elim (fileclose-ok t inv k has) [
        | inl more ↦ inl more
        | inr (one, e) ↦ inr (one, _, release_of-LetsGo (t.table k).type (t.table k) refl, e)
      ];
    }
