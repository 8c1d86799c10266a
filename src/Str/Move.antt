-- ===== src/Str/Move.antt =====
-- memmove, memset and memcmp against what they mean.
use os.Prelude.{
  ℕ, zero, suc, ◌+◌, ◌-◌, ◌%◌, ◌<◌, ◌≤◌, ◌≡◌, ◌⊎◌, ◌↔◌, inl, inr, refl, ◌∙◌, ◌&&◌, ◌==◌, ltb, leb,
  if◌then◌else◌, update, arith, Bool-cases,
}
use os.Str.{Memory, set_loop, memset, memcmp, copy_down, copy_up, memmove}

-- the memory in which `n` bytes from `d` on are those that stood from `s` on
abbrev pub moved : ℕ → ℕ → ℕ → Memory → Memory
moved d s n m a = if leb d a && ltb a (d + n) then m (s + (a - d)) else m a

copy_down-moved : (d s n : ℕ) (m : Memory) → s ≤ d → (a : ℕ) → copy_down d s n m a ≡ moved d s n m a
unfolding copy_down
copy_down-moved d s zero m le a = ground arith
copy_down-moved d s (suc n) m le a =
    copy_down-moved d s n (update m (d + n) (m (s + n))) le a ∙ ground arith

copy_up-moved :
    (d s n : ℕ) (m : Memory) → (d ≤ s) ⊎ (s + n ≤ d) → (a : ℕ) → copy_up d s n m a ≡ moved d s n m a
unfolding copy_up
copy_up-moved d s zero m apart a = ground arith
copy_up-moved d s (suc n) m apart a =
    copy_up-moved (d + 1) (s + 1) n (update m d (m s)) (ground (arith, apart)) a
    ∙ ground (arith, apart)

-- memmove() moves the `n` bytes of the source as they stood before the call, and changes no other
-- byte, however the two ranges overlap.
pub memmove-moved :
    (dst src n : ℕ) (m : Memory) (a : ℕ) → memmove dst src n m a ≡ moved dst src n m a
unfolding memmove
memmove-moved dst src n m a = elim (Bool-cases (n == 0)) [
  | inl e ↦ rw e (ground arith)
  | inr ne ↦ rw ne (elim (Bool-cases (ltb src dst && ltb dst (src + n))) [
    | inl e ↦ rw e (copy_down-moved dst src n m (ground arith) a)
    | inr e ↦ rw e (copy_up-moved dst src n m (ground arith) a)
  ])
]

set_loop-filled :
    (dst c left i : ℕ) (m : Memory) (a : ℕ)
    → set_loop dst c left i m a
      ≡ (if leb (dst + i) a && ltb a (dst + i + left) then c % 256 else m a)
unfolding set_loop
set_loop-filled dst c zero i m a = ground arith
set_loop-filled dst c (suc left) i m a =
    set_loop-filled dst c left (i + 1) (update m (dst + i) (c % 256)) a ∙ ground arith

-- memset() of `n` bytes stores the low byte of `c` in each of them, and changes no other byte.
pub memset-filled :
    (dst c n : ℕ) (m : Memory) (a : ℕ)
    → memset dst c n m a ≡ (if leb dst a && ltb a (dst + n) then c % 256 else m a)
unfolding memset
memset-filled dst c n m a = set_loop-filled dst c n 0 m a ∙ ground arith

-- memcmp() of bytes is 0 exactly if the two ranges hold the same bytes.
pub memcmp-zero :
    (s1 s2 n : ℕ) (m : Memory)
    → ((a : ℕ) → m a < 256)
    → (memcmp s1 s2 n m ≡ 0) ↔ ((k : ℕ) → k < n → m (s1 + k) ≡ m (s2 + k))
unfolding memcmp
memcmp-zero s1 s2 zero m bytes = (λ e k lt. absurd (omega arith), λ e. refl)
memcmp-zero s1 s2 (suc n) m bytes =
    let ih = memcmp-zero (s1 + 1) (s2 + 1) n m bytes in
    elim (Bool-cases (m s1 == m s2)) [
      | inl e ↦ rw e (
        λ z k lt. elim (Bool-cases (k == 0)) [
          | inl first ↦ ground arith
          | inr later ↦ ground (arith, ih.0 z (k - 1))
        ],
        λ all. ih.1 (λ k lt. ground (arith, all (k + 1))),
      )
      | inr ne ↦
          rw ne (
            λ z. absurd (ground (arith, bytes s1, bytes s2)),
            λ all. absurd (ground (arith, all 0)),
          )
    ]
