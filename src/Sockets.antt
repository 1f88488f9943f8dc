-- ===== src/Sockets.antt =====
-- What the programs of 网络编程入门 share: their character buffers, the system calls by which they start,
-- and what they send and print. What a system call returns is an input of a model.
pub mod Buffer
pub mod Start
use collection_of_mini_proje.Prelude.{
  ℕ, zero, suc, Bool, true, false, Option, none, some, List, [], ◌∷◌, ◌++◌, ◌==◌, length, drop, ltb,
  if◌then◌else◌,
}

-- A read of no bytes is the end of the stream; `failed` is the result -1.
pub data Read : Type 0 where
  received : List ℕ → Read
  failed : Read

-- The calls whose error ends a program.
pub data Stage : Type 0 where
  socket bind listen connect accept read open_file : Stage

-- How a program ends before its loop, or what it does from then on.
pub data Exit (A : Type 0) : Type 0 where
  usage : Exit A
  failed_at : Stage → Exit A
  running : A → Exit A

-- Whether the calls of `socket`, `bind` and `listen` succeed.
pub record Setup : Type 0 where
  pub socket_done : Bool
  pub bind_done : Bool
  pub listen_done : Bool

-- Every call succeeds.
abbrev pub all_done : Setup
all_done = record { socket_done = true; bind_done = true; listen_done = true }

-- The start of a TCP server that needs `needed` arguments.
unfoldable pub opened : {A : Type 0} → ℕ → ℕ → Setup → A → Exit A
opened needed argc s run =
    if ltb argc needed
    then usage
    else if s.socket_done
    then (if s.bind_done
        then (if s.listen_done then running run else failed_at listen)
        else failed_at bind)
    else failed_at socket

-- A buffer of `n` bytes that are zero.
unfoldable pub zeros : ℕ → List ℕ
zeros zero = []
zeros (suc n) = 0 ∷ zeros n

-- `bytes` written from the start of a buffer.
abbrev pub overlay : List ℕ → List ℕ → List ℕ
overlay bytes buf = bytes ++ drop (length bytes) buf

-- `buf[i] = b`; `none` is a write out of bounds.
unfoldable pub put : ℕ → ℕ → List ℕ → Option (List ℕ)
put i b [] = none
put zero b (c ∷ buf) = some (b ∷ buf)
put (suc i) b (c ∷ buf) = elim (put i b buf) [ none ↦ none | some buf' ↦ some (c ∷ buf') ]

-- The string at the start of a buffer; `none` if no byte is zero, so that a read leaves the buffer.
unfoldable pub c_string : List ℕ → Option (List ℕ)
c_string [] = none
c_string (c ∷ buf) =
    if c == 0 then some [] else elim (c_string buf) [ none ↦ none | some s ↦ some (c ∷ s) ]

-- `std::cin >> buf` in C++17: a word and its terminator, whatever their length; `none` is a write
-- out of bounds.
unfoldable pub extract : List ℕ → List ℕ → Option (List ℕ)
extract word buf =
    if ltb (length word) (length buf)
    then some (word ++ (0 ∷ drop (suc (length word)) buf))
    else none

-- What a program has sent and printed, in order.
pub data Output : Type 0 where
  sent : List ℕ → Output
  printed : List ℕ → Output

-- Where it stands then: it has left its loop, waits for input, or has done what is undefined: a
-- write out of a buffer, or a read behind its end.
pub data Ending : Type 0 where
  quit waiting out_of_bounds over_read : Ending

abbrev pub Run : Type 0
Run = List Output × Ending

abbrev pub emit : Output → Run → Run
emit o (os, e) = (o ∷ os, e)

-- Go on with a buffer or a string, if there is one.
abbrev pub in_bounds : Option (List ℕ) → (List ℕ → Run) → Run
in_bounds none next = ([], out_of_bounds)
in_bounds (some buf) next = next buf

abbrev pub in_string : Option (List ℕ) → (List ℕ → Run) → Run
in_string none next = ([], over_read)
in_string (some s) next = next s
