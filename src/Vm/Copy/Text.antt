-- ===== src/Vm/Copy/Text.antt =====
-- copyinstr(): a string of a process.
use os.Prelude.{
  ℕ, zero, suc, ◌+◌, ◌-◌, ◌%◌, ◌<◌, ◌≤◌, ◌≡◌, ◌≢◌, ◌⊎◌, inl, inr, refl, sym, ap, ◌∙◌, Bool, true,
  false, ◌==◌, ltb, update, arith, Bool-cases, ==_iff, u64,
}
use Prim.Native.Nat.{min}
use mathlib.Core.Path.{subst}
use os.Kernel.Runs.{Runs, returns, Runs-mono}
use os.Str.{Memory}
use os.Kalloc.{Kmem, pgsize, pgrounddown}
use os.Vm.{maxva}
use os.Vm.Tree.{Labels, Tree}
use os.Vm.Copy.{string_loop, copyinstr_loop, copyinstr}
use os.Vm.Copy.Frame.{
  translate, walkaddr-translate, Clear, SameBut, translate-same, translate-page, user_byte,
}

-- The copy of a string `str` to `dst`, of at most `n` bytes: `k` bytes and then the 0, or `k` bytes
-- and a reason to stop there. Nothing else has changed.
pub record Text (str : ℕ → ℕ) (dst n : ℕ) (Stop : ℕ → Type 0) (fine : Bool) (m m' : Memory)
    : Type 0 where
  pub k : ℕ
  pub le : k ≤ n
  pub bytes : (i : ℕ) → i < k → (m' (dst + i) ≡ str i) × (str i ≢ 0)
  pub result :
      ((fine ≡ true) × (k < n) × (str k ≡ 0) × (m' (dst + k) ≡ 0) × SameBut dst (k + 1) m m')
      ⊎ ((fine ≡ false) × Stop k × SameBut dst k m m')

-- `j` bytes before a string
prepend :
    (str rest : ℕ → ℕ) (dst j n n' : ℕ) (Stop Stop' : ℕ → Type 0) (fine : Bool) (m m1 m' : Memory)
    → ((i : ℕ) → i < j → (m1 (dst + i) ≡ str i) × (str i ≢ 0))
    → SameBut dst j m m1
    → ((i : ℕ) → i < n' → rest i ≡ str (j + i))
    → j + n' ≤ n
    → ((k : ℕ) → k ≤ n' → Stop' k → Stop (j + k))
    → Text rest (dst + j) n' Stop' fine m1 m'
    → Text str dst n Stop fine m m'
prepend str rest dst j n n' Stop Stop' fine m m1 m' first same shift room stops r = record {
  k = j + r.k;
  le = omega (arith, r.le, room);
  bytes = λ i lt. elim (Bool-cases (ltb i j)) [
    | inl e ↦ let f = first i (ground arith) in (kept i (ground arith) ∙ f.0, f.1)
    | inr e ↦
        let q = r.bytes (i - j) (ground (arith, lt)) in
        let back : j + (i - j) ≡ i = ground arith in
        let s : rest (i - j) ≡ str i = shift (i - j) (ground (arith, lt, r.le)) ∙ ap str back in
        (ap m' {x = dst + i} {y = dst + j + (i - j)} (ground arith) ∙ q.0 ∙ s, λ z. q.1 (s ∙ z))
  ];
  result = elim r.result [
    | inl (f, lt, z, w, out) ↦ inl (
      f,
      omega (arith, lt, room),
      sym (shift r.k lt) ∙ z,
      ap m' {x = dst + (j + r.k)} {y = dst + j + r.k} (omega arith) ∙ w,
      λ a o. out a (ground (arith, o)) ∙ same a (ground (arith, o)),
    )
    | inr (f, st, out) ↦
        inr (f, stops r.k r.le st, λ a o. out a (ground (arith, o)) ∙ same a (ground (arith, o)))
  ];
}
  where
    kept : (i : ℕ) → i < j → m' (dst + i) ≡ m1 (dst + i)
    kept i lt = elim r.result [
      | inl (f, _, _, _, out) ↦ out (dst + i) (inl (omega (arith, lt)))
      | inr (f, st, out) ↦ out (dst + i) (inl (omega (arith, lt)))
    ]

-- the loop over a page
string_loop-Text :
    (p dst n : ℕ) (m : Memory)
    → (dst + n ≤ p) ⊎ (p + n ≤ dst)
    → Text (λ i. m (p + i)) dst n (λ k. k ≡ n) (string_loop p dst n m).0 m (string_loop p dst n m).1
unfolding string_loop
string_loop-Text p dst zero m apart = record {
  k = 0;
  le = omega arith;
  bytes = λ i lt. absurd (omega (arith, lt));
  result = inr (refl, refl, λ a out. refl);
}
string_loop-Text p dst (suc n) m apart = elim (Bool-cases (m p == 0)) [
  | inl z ↦ rw z (record {
    k = 0;
    le = omega arith;
    bytes = λ i lt. absurd (omega (arith, lt));
    result = inl (
      refl,
      omega arith,
      ap m {x = p + 0} {y = p} (omega arith) ∙ (==_iff _ _).0 z,
      ground arith,
      λ a out. ground (arith, out),
    );
  })
  | inr nz ↦ rw nz (
      prepend (λ i. m (p + i)) (λ i. update m dst (m p) (p + 1 + i)) dst 1 (suc n) n
        (λ k. k ≡ suc n) (λ k. k ≡ n) _ m (update m dst (m p)) _ (λ i lt. first i lt (ground arith))
        (λ a out. ground (arith, out))
        (λ i lt.
          let away : (p + 1 + i == dst) ≡ false = ground (arith, apart, lt) in
          rw away (ap m (omega arith)))
        (omega arith) (λ k le e. omega (arith, e))
        (string_loop-Text (p + 1) (dst + 1) n (update m dst (m p)) (ground (arith, apart))))
]
  where
    first : (i : ℕ) → i < 1 → m p ≢ 0 → (update m dst (m p) (dst + i) ≡ m (p + i)) × (m (p + i) ≢ 0)
    first i lt ne =
        let here : (dst + i == dst) ≡ true = ground (arith, lt) in
        let same : p + i ≡ p = omega (arith, lt) in rw (here, same) (refl, ne)

-- where the destination is apart from the tables and from the bytes that are read
pub record Apart (g : Labels) (m : Memory) (root dst srcva n : ℕ) : Type 0 where
  pub clear : Clear g dst n
  pub sources :
      (i : ℕ)
      → i < n
      → let p = translate m root (srcva + i) + (srcva + i) % 4096 in (p < dst) ⊎ (dst + n ≤ p)

-- a page that is not there, or the end of what may be copied
abbrev pub Stops : Memory → ℕ → ℕ → ℕ → ℕ → Type 0
Stops m root srcva n k = (k ≡ n) ⊎ (translate m root (srcva + k) ≡ 0)

module _ {end root : ℕ} {g : Labels} {m0 : Memory} (tree : Tree end root g m0) (dst0 n0 : ℕ)
    (clear : Clear g dst0 n0) where
  -- the physical addresses of a page
  page_at :
      (sv i : ℕ)
      → sv % 4096 + i < 4096
      → translate m0 root (sv + i) + (sv + i) % 4096
        ≡ translate m0 root sv + (sv - pgrounddown sv) + i
  page_at sv i lt =
      let p : pgrounddown (sv + i) ≡ pgrounddown sv = omega (arith, lt) in
      let same : translate m0 root (sv + i) ≡ translate m0 root sv =
        sym (translate-page m0 root (sv + i))
        ∙ ap (translate m0 root) p
        ∙ translate-page m0 root sv in
      ap {A = ℕ} (λ q. q + (sv + i) % 4096) same ∙ omega (arith, lt)

  -- they are apart from what is written
  sources-apart :
      (p d n sv left : ℕ)
      → ((i : ℕ) → i < n → (p + i < dst0) ⊎ (dst0 + n0 ≤ p + i))
      → dst0 ≤ d
      → d + n ≤ dst0 + n0
      → 0 < n
      → (d + n ≤ p) ⊎ (p + n ≤ d)
  sources-apart p d n sv left out lo hi pos = ground (arith, out 0, out (dst0 - p), lo, hi, pos)

  stop_later :
      (sv n left k : ℕ)
      → sv < maxva
      → k ≤ left - n
      → n ≡ min (pgsize - (sv - pgrounddown sv)) left
      → Stops m0 root (u64 (pgrounddown sv + pgsize)) (left - n) k
      → Stops m0 root sv left (n + k)
  stop_later sv n left k low le is (inl e) = inl (omega (arith, e, is))
  stop_later sv n left k low le is (inr z) = elim (Bool-cases (n == left)) [
    | inl e ↦ inl (ground (arith, le))
    | inr e ↦ inr (
        ap (translate m0 root) {x = sv + (n + k)} {y = u64 (pgrounddown sv + pgsize) + k}
          (ground (arith, is, low))
        ∙ z)
  ]

  copyinstr_loop-Text :
      (fuel d sv left : ℕ) (u : Kmem)
      → SameBut dst0 n0 m0 u.mem
      → dst0 ≤ d
      → d + left ≤ dst0 + n0
      → ((i : ℕ)
          → i < left
          → let p = translate m0 root (sv + i) + (sv + i) % 4096 in (p < dst0) ⊎ (dst0 + n0 ≤ p))
      → left < fuel
      → Runs
          (λ fine t.
            Text (λ i. user_byte m0 root (sv + i)) d left (Stops m0 root sv left) fine u.mem t.mem)
          (λ d. ⊥)
          (copyinstr_loop fuel root d sv left u)
  unfolding copyinstr_loop
  copyinstr_loop-Text zero d sv left u same lo hi out enough = absurd (omega (arith, enough))
  copyinstr_loop-Text (suc fuel) d sv left u same lo hi out enough =
      elim (Bool-cases (ltb 0 left)) [
        | inr e ↦ rw e (
            returns (record {
              k = 0;
              le = omega arith;
              bytes = λ i lt. absurd (omega (arith, lt));
              result = inr (refl, inl (ground arith), λ a o. refl);
            }))
        | inl e ↦
            let w = walkaddr-translate root (pgrounddown sv) u in
            let at : translate u.mem root (pgrounddown sv) ≡ translate m0 root sv =
              translate-same tree dst0 n0 clear same (pgrounddown sv) ∙ translate-page m0 root sv in
            rw (e, w, at)
              (elim (Bool-cases (translate m0 root sv == 0)) [
                | inl z ↦ rw z (
                    returns (record {
                      k = 0;
                      le = omega arith;
                      bytes = λ i lt. absurd (omega (arith, lt));
                      result = inr (
                        refl,
                        inr (
                            ap (translate m0 root) {x = sv + 0} {y = sv} (omega arith)
                            ∙ (==_iff _ _).0 z),
                        λ a o. refl,
                      );
                    }))
                | inr nz ↦
                    let low : sv < maxva = ground (arith, nz) in
                    let p = translate m0 root sv + (sv - pgrounddown sv) in
                    let n = min (pgsize - (sv - pgrounddown sv)) left in
                    let place = λ (i : ℕ) (lt : i < n). page_at sv i (omega (arith, lt)) in
                    let away = λ (i : ℕ) (lt : i < n).
                      subst (λ q. (q < dst0) ⊎ (dst0 + n0 ≤ q)) (place i lt)
                        (out i (omega (arith, lt))) in
                    let byte =
                      λ (i : ℕ) (lt : i < n). same (p + i) (away i lt) ∙ ap m0 (sym (place i lt)) in
                    let r =
                      string_loop-Text p d n u.mem
                        (sources-apart p d n sv left away lo (omega (arith, hi)) (ground arith)) in
                    rw nz (elim r.result [
                      | inl (f, lt, z, stored, outside) ↦ rw f (
                          returns (record {
                            k = r.k;
                            le = omega (arith, lt);
                            bytes = λ i il.
                                let b = r.bytes i il in
                                let e = byte i (omega (arith, il, lt)) in
                                (b.0 ∙ e, λ q. b.1 (e ∙ q));
                            result = inl (
                              refl,
                              omega (arith, lt),
                              ◌∙◌ {a = user_byte m0 root (sv + r.k)} {b = u.mem (p + r.k)} {c = 0}
                                  (sym (byte r.k lt)) z,
                              stored,
                              outside,
                            );
                          }))
                      | inr (f, all, outside) ↦ rw f (
                          Runs-mono
                            (copyinstr_loop-Text fuel (d + n) (u64 (pgrounddown sv + pgsize))
                              (left - n) (record u { mem = (string_loop p d n u.mem).1 })
                              (λ a o. outside a (ground (arith, o, lo, hi, all)) ∙ same a o)
                              (omega (arith, lo)) (omega (arith, hi))
                              (λ i lt.
                                subst
                                  (λ q.
                                    let p = translate m0 root q + q % 4096 in
                                    (p < dst0) ⊎ (dst0 + n0 ≤ p))
                                  (omega (arith, lt, low)) (out (n + i) (omega (arith, lt))))
                              (ground (arith, enough)))
                            (λ fine t q.
                              prepend (λ i. user_byte m0 root (sv + i))
                                (λ i. user_byte m0 root (u64 (pgrounddown sv + pgsize) + i)) d n
                                left (left - n) (Stops m0 root sv left)
                                (Stops m0 root (u64 (pgrounddown sv + pgsize)) (left - n)) fine
                                u.mem _ t.mem
                                (λ i il.
                                  let b = r.bytes i (omega (arith, il, all)) in
                                  let e = byte i il in (b.0 ∙ e, λ z. b.1 (e ∙ z)))
                                (λ a o. outside a (ground (arith, o, all)))
                                (λ i il. ap (user_byte m0 root) (omega (arith, il, low)))
                                (omega arith) (λ k le st. stop_later sv n left k low le refl st) q)
                            (λ d q. q))
                    ])
              ])
      ]

-- Where the destination is in no table and apart from the bytes that are read, copyinstr()
-- returns. It succeeds exactly with the bytes of the process up to a 0 among the first `max`,
-- which it stores with the 0. It fails where a page is not mapped for the process, or there is no
-- 0; the bytes before are stored. It changes nothing else.
pub copyinstr-Text :
    (end root dst srcva max : ℕ) (g : Labels) (s : Kmem)
    → Tree end root g s.mem
    → Apart g s.mem root dst srcva max
    → Runs
        (λ fine t.
          Text
            (λ i. user_byte s.mem root (srcva + i))
            dst
            max
            (Stops s.mem root srcva max)
            fine
            s.mem
            t.mem)
        (λ d. ⊥)
        (copyinstr root dst srcva max s)
unfolding copyinstr
copyinstr-Text end root dst srcva max g s tree apart =
    copyinstr_loop-Text tree dst max apart.clear (suc max) dst srcva max s (λ a o. refl)
      (omega arith) (omega arith) apart.sources (omega arith)
