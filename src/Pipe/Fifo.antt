-- ===== src/Pipe/Fifo.antt =====
-- A valid pipe holds a queue of at most `pipe_size` bytes; `put` and `get` are its two ends.
use os.Prelude.{
  ℕ, zero, suc, ◌+◌, ◌-◌, ◌%◌, ◌^◌, ◌≤◌, ◌<◌, ◌≡◌, ◌≢◌, refl, ap, ◌∙◌, true, false, List, [], ◌∷◌,
  ◌++◌, arith, update, u32, length,
}
use os.Pipe.{Pipe, pipe_size, fresh, is_full, is_empty, put, get}

-- nwrite - nread in unsigned arithmetic: the number of bytes in the pipe
abbrev pub count : Pipe → ℕ
count p = (p.nwrite + 2 ^ 32 - p.nread) % 2 ^ 32

pub record IsValid (p : Pipe) : Type 0 where
  pub nread_word : p.nread < 2 ^ 32
  pub nwrite_word : p.nwrite < 2 ^ 32
  pub fits : count p ≤ pipe_size

-- the `n` bytes from counter `r` on
abbrev pub window : (ℕ → ℕ) → ℕ → ℕ → List ℕ
window f r zero = []
window f r (suc n) = f (r % pipe_size) ∷ window f (u32 (r + 1)) n

abbrev pub contents : Pipe → List ℕ
contents p = window p.bytes p.nread (count p)

length-window : (f : ℕ → ℕ) (r n : ℕ) → length (window f r n) ≡ n
length-window f r zero = refl
length-window f r (suc n) = ap suc (length-window f (u32 (r + 1)) n)

pub length-contents : (p : Pipe) → length (contents p) ≡ count p
length-contents p = length-window p.bytes p.nread (count p)

-- `window` matches on `suc`
pub window_of_pos :
    (f : ℕ → ℕ) (r n : ℕ)
    → 0 < n
    → window f r n ≡ f (r % pipe_size) ∷ window f (u32 (r + 1)) (n - 1)
window_of_pos f r zero h = absurd (omega arith)
window_of_pos f r (suc n) h = ap (λ k. window f r (suc k)) (omega arith)

update_self : (f : ℕ → ℕ) (i a : ℕ) → update f i a i ≡ a
update_self f i a = ground arith

update_ne : (f : ℕ → ℕ) (i j a : ℕ) → j ≢ i → update f i a j ≡ f j
update_ne f i j a h = ground arith

-- Writing just behind a window makes it longer by that byte.
window-update :
    (f : ℕ → ℕ) (r n i x : ℕ)
    → r < 2 ^ 32
    → n < pipe_size
    → i ≡ u32 (r + n) % pipe_size
    → window (update f i x) r (suc n) ≡ window f r n ++ (x ∷ [])
window-update f r zero i x hr hn e =
    ap (λ b. b ∷ []) (let e' : r % pipe_size ≡ i = omega arith in rw e' (update_self f i x))
window-update f r (suc n) i x hr hn e = rw (
  update_ne f i (r % pipe_size) x (omega arith),
  window-update f (u32 (r + 1)) n i x (omega arith) (omega arith) (omega arith),
)

pub is_full_iff :
    {p : Pipe}
    → IsValid p
    → (is_full p ≡ true → count p ≡ pipe_size) × (is_full p ≡ false → count p < pipe_size)
unfolding is_full
is_full_iff v = (λ h. ground arith, λ h. ground arith)

pub is_empty_iff :
    {p : Pipe} → IsValid p → (is_empty p ≡ true → count p ≡ 0) × (is_empty p ≡ false → 0 < count p)
unfolding is_empty
is_empty_iff v = (λ h. ground arith, λ h. ground arith)

-- Both counters start at 0, whatever the page held: a fresh pipe is valid and empty.
pub fresh-IsValid : (junk : ℕ → ℕ) → IsValid (fresh junk) × (contents (fresh junk) ≡ [])
unfolding fresh
fresh-IsValid junk = (omega arith, refl)

pub put-IsValid : {p : Pipe} (ch : ℕ) → IsValid p → count p < pipe_size → IsValid (put p ch)
unfolding put
put-IsValid ch v h = ground arith

pub get-IsValid : {p : Pipe} → IsValid p → 0 < count p → IsValid (get p).1
unfolding get
get-IsValid v h = ground arith

pub contents-put :
    {p : Pipe} (ch : ℕ)
    → IsValid p
    → count p < pipe_size
    → contents (put p ch) ≡ contents p ++ (ch ∷ [])
unfolding put
contents-put {p} ch v h =
    ap (window (update p.bytes (p.nwrite % pipe_size) ch) p.nread) longer
    ∙ window-update p.bytes p.nread (count p) (p.nwrite % pipe_size) ch (omega arith) h
        (omega arith)
  where
    longer : (u32 (p.nwrite + 1) + 2 ^ 32 - p.nread) % 2 ^ 32 ≡ suc (count p)
    longer = omega arith

pub contents-get :
    {p : Pipe} → IsValid p → 0 < count p → contents p ≡ (get p).0 ∷ contents (get p).1
unfolding get
contents-get {p} v h =
    window_of_pos p.bytes p.nread (count p) h
    ∙ ap (λ k. p.bytes (p.nread % pipe_size) ∷ window p.bytes (u32 (p.nread + 1)) k) (omega arith)
