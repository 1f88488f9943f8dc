-- ===== src/Console.antt =====
-- 网络编程入门/SELECT/SelectDemo.cxx: lines from the terminal are printed, as `select` reports them.
pub mod Examples
use collection_of_mini_proje.Prelude.{
  ℕ, ◌≡◌, ◌≤◌, ◌<◌, ◌∙◌, Bool, true, inl, inr, refl, Bool-cases, false, none, List, [], ◌∷◌, ◌++◌,
  ap, length, drop, ltb, length-append, if◌then◌else◌, arith,
}
use collection_of_mini_proje.Sockets.{
  Read, Output, received, failed, zeros, overlay, put, c_string, printed, quit, waiting,
  out_of_bounds, Run, emit, in_bounds, in_string,
}
use collection_of_mini_proje.Libevent.{codes}
use collection_of_mini_proje.Sockets.Buffer.{
  NonZero, terminated, put_full, length-zeros, length-drop,
}

-- `BUFFSIZE`
abbrev pub console_size : ℕ
console_size = 1024

-- A result of `select`: an error, a time-out, or input, with what `read` returns.
pub data Selected : Type 0 where
  select_failed time_out : Selected
  ready : Read → Selected

abbrev pub select_error : List ℕ
select_error = codes "select() error. "

abbrev pub timed_out : List ℕ
timed_out = codes "Time-out!"

abbrev pub from_console : List ℕ
from_console = codes "Message from console : "

-- The loop of `main`, over these results; `printed` is a line. After a failed read the terminator is
-- stored at index -1.
unfoldable pub console_loop : List Selected → Run
console_loop [] = ([], waiting)
console_loop (select_failed ∷ rs) = (printed select_error ∷ [], quit)
console_loop (time_out ∷ rs) = emit (printed timed_out) (console_loop rs)
console_loop (ready failed ∷ rs) = ([], out_of_bounds)
console_loop (ready (received bytes) ∷ rs) =
    let rest = console_loop rs in
    in_bounds (put (length bytes) 0 (overlay bytes (zeros console_size)))
      (λ buf. in_string (c_string buf) (λ s. emit (printed (from_console ++ s)) rest))

-- For input of bytes that are not zero, at most as many as the buffer has, the loop prints it and
-- goes on, but stores out of its buffer if the input fills it.
console_loop_lem :
    (bytes : List ℕ) (rs : List Selected)
    → NonZero bytes
    → length bytes ≤ console_size
    → console_loop (ready (received bytes) ∷ rs) ≡ (
        if ltb (length bytes) console_size
        then emit (printed (from_console ++ bytes)) (console_loop rs)
        else ([], out_of_bounds))
unfolding console_loop
console_loop_lem bytes rs h fits = elim (Bool-cases (ltb (length bytes) console_size)) [
  | inl short ↦
      let (buf, e, s, _) =
        terminated bytes (zeros console_size) h (ground (arith, length-zeros console_size)) in
      rw (short, e, s)
  | inr long ↦
      let full : put (length bytes) 0 (overlay bytes (zeros console_size)) ≡ none =
        put_full bytes (zeros console_size) (ground (arith, length-zeros console_size)) in
      rw (long, full)
]

-- The lines for what `select` reports, up to its first error.
abbrev pub lines_of : List Selected → List Output
lines_of [] = []
lines_of (select_failed ∷ rs) = printed select_error ∷ []
lines_of (time_out ∷ rs) = printed timed_out ∷ lines_of rs
lines_of (ready failed ∷ rs) = lines_of rs
lines_of (ready (received bytes) ∷ rs) = printed (from_console ++ bytes) ∷ lines_of rs

-- No read fails, and each one gives fewer bytes than the buffer has, none of them zero.
abbrev pub Fits : List Selected → Type 0
Fits [] = Unit
Fits (select_failed ∷ rs) = Unit
Fits (time_out ∷ rs) = Fits rs
Fits (ready failed ∷ rs) = ⊥
Fits (ready (received bytes) ∷ rs) = NonZero bytes × (length bytes < console_size) × Fits rs

-- Whether `select` reports an error.
abbrev pub stops : List Selected → Bool
stops [] = false
stops (select_failed ∷ rs) = true
stops (time_out ∷ rs) = stops rs
stops (ready r ∷ rs) = stops rs

-- If no read fails and each one returns fewer bytes than the buffer has, none of them zero, the loop
-- prints a line for each time-out and one with the bytes for each read, in order, and nothing else. It
-- ends with a message at the first error of `select`, and waits if there is none.
pub console_loop-printed :
    (rs : List Selected)
    → Fits rs
    → console_loop rs ≡ (lines_of rs, (if stops rs then quit else waiting))
unfolding console_loop
console_loop-printed [] h = refl
console_loop-printed (select_failed ∷ rs) h = refl
console_loop-printed (time_out ∷ rs) h = ap (emit (printed timed_out)) (console_loop-printed rs h)
console_loop-printed (ready failed ∷ rs) h = absurd h
console_loop-printed (ready (received bytes) ∷ rs) h =
    let short : ltb (length bytes) console_size ≡ true = ground (arith, h.1) in
    console_loop_lem bytes rs h.0 (omega (arith, h.1)) ∙ rw (short, console_loop-printed rs h.2)
