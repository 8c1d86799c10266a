-- ===== src/Str/Copy.antt =====
-- strncpy() and safestrcpy().
use os.Prelude.{
  ℕ, zero, suc, ◌+◌, ◌-◌, ◌<◌, ◌≤◌, ◌≡◌, ◌⊎◌, inl, inr, sym, ap, ◌∙◌, true, false, ◌&&◌, ◌==◌, ltb,
  leb, if◌then◌else◌, update, arith, Bool-cases,
}
use mathlib.Core.Path.{subst}
use os.Str.{Memory, zero_fill, strncpy, safe_loop, safestrcpy}
use os.Str.Text.{ended, ended-ext, ended-zero, ended-pos, ended-cons}

zero_fill-filled :
    (s n : ℕ) (m : Memory) (a : ℕ)
    → zero_fill s n m a ≡ (if leb s a && ltb a (s + n) then 0 else m a)
unfolding zero_fill
zero_fill-filled s zero m a = ground arith
zero_fill-filled s (suc n) m a = zero_fill-filled (s + 1) n (update m s 0) a ∙ ground arith

-- the `n` bytes from `s` on hold the string at `t`, and zeros after its end
abbrev pub padded : ℕ → ℕ → ℕ → Memory → Memory
padded s t n m a =
    if leb s a && ltb a (s + n) then (if ended m t (a - s) then 0 else m (t + (a - s))) else m a

padded-step :
    (s t n : ℕ) (m : Memory) (a : ℕ)
    → (m t == 0) ≡ false
    → (s + suc n ≤ t) ⊎ (t + suc n ≤ s)
    → padded (s + 1) (t + 1) n (update m s (m t)) a ≡ padded s t (suc n) m a
padded-step s t n m a e apart = elim (Bool-cases (leb (s + 1) a && ltb a (s + 1 + n))) [
  | inr out ↦ ground (arith, ended-zero m t (a - s))
  | inl within ↦
      let same =
        ended-ext m (update m s (m t)) (t + 1) (a - (s + 1)) (λ j lt. ground (arith, apart)) in
      ground (arith, ended-pos m t (a - s), same, apart)
]

-- Where the two ranges are apart, strncpy() copies the string up to its end, fills the rest of the
-- range with zeros, and changes no other byte.
pub strncpy-padded :
    (s t n : ℕ) (m : Memory) (a : ℕ)
    → (s + n ≤ t) ⊎ (t + n ≤ s)
    → strncpy s t n m a ≡ padded s t n m a
unfolding strncpy
strncpy-padded s t zero m a apart = ground arith
strncpy-padded s t (suc n) m a apart = elim (Bool-cases (m t == 0)) [
  | inl e ↦ rw e (
      zero_fill-filled (s + 1) n (update m s (m t)) a ∙ elim (Bool-cases (a == s)) [
        | inl here ↦ ground (arith, ended-zero m t (a - s))
        | inr ne ↦ ground (arith, ended-pos m t (a - s))
      ])
  | inr e ↦ rw e (
      strncpy-padded (s + 1) (t + 1) n (update m s (m t)) a (ground (arith, apart))
      ∙ padded-step s t n m a e apart)
]

-- no byte outside the first `n + 1` changes
safe_loop-outside :
    (s t n : ℕ) (m : Memory) (a : ℕ) → (a < s) ⊎ (s + n < a) → safe_loop s t n m a ≡ m a
unfolding safe_loop
safe_loop-outside s t zero m a out = ground (arith, out)
safe_loop-outside s t (suc n) m a out = elim (Bool-cases (m t == 0)) [
  | inl e ↦ rw e (ground (arith, out))
  | inr e ↦ rw e (
      safe_loop-outside (s + 1) (t + 1) n (update m s (m t)) a (ground (arith, out))
      ∙ ground (arith, out))
]

safe_loop-ended : (s t n : ℕ) (m : Memory) → ended (safe_loop s t n m) s (suc n) ≡ true
unfolding safe_loop ended
safe_loop-ended s t zero m = ground arith
safe_loop-ended s t (suc n) m = elim (Bool-cases (m t == 0)) [
  | inl e ↦ rw e (ground arith)
  | inr e ↦
      let step : safe_loop s t (suc n) m ≡ safe_loop (s + 1) (t + 1) n (update m s (m t)) = rw e in
      subst (λ R. ended R s (suc (suc n)) ≡ true) (sym step)
        (ended-cons (safe_loop (s + 1) (t + 1) n (update m s (m t))) s (suc n)
          (safe_loop-ended (s + 1) (t + 1) n (update m s (m t))))
]

safe_loop-copied :
    (s t n : ℕ) (m : Memory) (k : ℕ)
    → (s + suc n ≤ t) ⊎ (t + suc n ≤ s)
    → k < n
    → ended m t k ≡ false
    → safe_loop s t n m (s + k) ≡ m (t + k)
unfolding safe_loop
safe_loop-copied s t zero m k apart lt go = absurd (omega arith)
safe_loop-copied s t (suc n) m k apart lt go = elim (Bool-cases (m t == 0)) [
  | inl e ↦ rw e (ground (arith, ended-pos m t k))
  | inr e ↦ rw e (elim (Bool-cases (k == 0)) [
    | inl first ↦
        safe_loop-outside (s + 1) (t + 1) n (update m s (m t)) (s + k) (ground arith) ∙ ground arith
    | inr later ↦
        let same =
          ended-ext m (update m s (m t)) (t + 1) (k - 1) (λ j below. ground (arith, apart)) in
        let ih =
          safe_loop-copied (s + 1) (t + 1) n (update m s (m t)) (k - 1) (ground (arith, apart))
            (ground arith) (same ∙ ground (arith, ended-pos m t k)) in
        let at : s + k ≡ s + 1 + (k - 1) = ground arith in
        let read : update m s (m t) (t + 1 + (k - 1)) ≡ m (t + k) = ground (arith, apart) in
        ap (safe_loop (s + 1) (t + 1) n (update m s (m t))) at ∙ ih ∙ read
  ])
]

-- Where the two ranges are apart and the range is not empty, safestrcpy() leaves a string that
-- ends within the range, has the source's bytes up to the source's end or the last byte of the
-- range, and changes no byte outside the range.
pub safestrcpy-string :
    (s t n : ℕ) (m : Memory)
    → 0 < n
    → (s + n ≤ t) ⊎ (t + n ≤ s)
    → let m' = safestrcpy s t n m in
      (ended m' s n ≡ true)
      × ((k : ℕ) → k + 1 < n → ended m t k ≡ false → m' (s + k) ≡ m (t + k))
      × ((a : ℕ) → (a < s) ⊎ (s + n ≤ a) → m' a ≡ m a)
unfolding safestrcpy
safestrcpy-string s t zero m pos apart = absurd (omega arith)
safestrcpy-string s t (suc n) m pos apart = (
  safe_loop-ended s t n m,
  λ k lt go. safe_loop-copied s t n m k apart (omega arith) go,
  λ a out. safe_loop-outside s t n m a (ground (arith, out)),
)
