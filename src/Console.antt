-- ===== src/Console.antt =====
-- kernel/console.c: the line that is typed, and its reader. A critical section of cons.lock is one
-- function call. `echo` is what went to the uart through uartputc_sync().
pub mod Edit
pub mod Line
mod Tests
use os.Prelude.{
  ℕ, zero, suc, ◌+◌, ◌-◌, ◌%◌, ◌^◌, Bool, true, false, not, ◌&&◌, ◌||◌, List, [], ◌∷◌, ◌++◌, ◌==◌,
  ltb, if◌then◌else◌, update, u8, u32,
}

abbrev pub input_buf_size : ℕ
input_buf_size = 128

abbrev pub backspace : ℕ
backspace = 256

-- C('P'), C('U'), C('H'), C('D'), '\x7f' and '\n'
abbrev pub ctrl_p : ℕ
ctrl_p = 16

abbrev pub ctrl_u : ℕ
ctrl_u = 21

abbrev pub ctrl_h : ℕ
ctrl_h = 8

abbrev pub ctrl_d : ℕ
ctrl_d = 4

abbrev pub delete : ℕ
delete = 127

abbrev pub newline : ℕ
newline = 10

pub record Cons : Type 0 where
  pub buf : ℕ → ℕ
  pub r : ℕ
  pub w : ℕ
  pub e : ℕ
  pub echo : List ℕ

unfoldable pub consputc : ℕ → Cons → Cons
consputc c s = record s { echo = s.echo ++ (if c == backspace then 8 ∷ 32 ∷ 8 ∷ [] else c ∷ []) }

-- cons.e-- and the echo
unfoldable pub erase : Cons → Cons
unfolding consputc
erase s = consputc backspace (record s { e = u32 (s.e + 2 ^ 32 - 1) })

-- The loop for control-u, on fuel; it erases at most what the buffer holds.
unfoldable pub kill_line : ℕ → Cons → Cons
unfolding erase
kill_line zero s = s
kill_line (suc fuel) s =
    let rest = kill_line fuel (erase s) in
    if not (s.e == s.w) && not (s.buf (u32 (s.e + 2 ^ 32 - 1) % input_buf_size) == newline)
    then rest
    else s

-- echo and store; whether the reader is woken
unfoldable pub put_char : ℕ → Cons → Bool × Cons
unfolding consputc
put_char c s =
    let t = record (consputc c s) {
      buf = update s.buf (s.e % input_buf_size) (u8 c);
      e = u32 (s.e + 1);
    } in
    if c == newline || c == ctrl_d || u32 (t.e + 2 ^ 32 - t.r) == input_buf_size
    then (true, record t { w = t.e })
    else (false, t)

-- consoleintr() but for procdump(): whether it calls wakeup(&cons.r)
unfoldable pub consoleintr : ℕ → Cons → Bool × Cons
unfolding kill_line erase put_char
consoleintr c s =
    if c == ctrl_p
    then (false, s)
    else if c == ctrl_u
    then (false, kill_line input_buf_size s)
    else if c == ctrl_h || c == delete
    then (false, if not (s.e == s.w) then erase s else s)
    else if not (c == 0) && ltb (u32 (s.e + 2 ^ 32 - s.r)) input_buf_size
    then put_char (if c == 13 then newline else c) s
    else (false, s)

-- How a stretch of consoleread() ends: it returns a count or -1, or sleeps with so many bytes and
-- the address to go.
pub data Exit : Type 0 where
  returned : ℕ → Exit
  failed : Exit
  asleep : ℕ → ℕ → Exit

-- consoleread() from its entry or its wake-up with `n` bytes to go, up to its return or its next
-- sleep, and the bytes that it stored; `copyout a c` says whether the byte could be stored at `a`.
unfoldable pub consoleread : (ℕ → ℕ → Bool) → Bool → ℕ → ℕ → ℕ → Cons → Exit × List ℕ × Cons
consoleread copyout killed target dst zero s = (returned target, [], s)
consoleread copyout killed target dst (suc n) s =
    let c = s.buf (s.r % input_buf_size) in
    let s' = record s { r = u32 (s.r + 1) } in
    let (exit, out, t) = consoleread copyout killed target (dst + 1) n s' in
    if s.r == s.w
    then (if killed then failed else asleep (suc n) dst, [], s)
    else if c == ctrl_d
    then (returned (target - suc n), [], if ltb (suc n) target then s else s')
    else if not (copyout dst c)
    then (returned (target - suc n), [], s')
    else if c == newline
    then (returned (target - n), c ∷ [], s')
    else (exit, c ∷ out, t)
