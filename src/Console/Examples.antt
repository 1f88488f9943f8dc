-- ===== src/Console/Examples.antt =====
-- Two lines, a time-out and an error of `select`.
use collection_of_mini_proje.Prelude.{◌≡◌, List, [], ◌∷◌, ◌++◌, arith}
use collection_of_mini_proje.Libevent.{codes}
use collection_of_mini_proje.Sockets.{received, printed, quit}
use collection_of_mini_proje.Console.{
  Selected, ready, time_out, select_failed, console_loop, console_loop-printed,
}

abbrev session : List Selected
session =
    ready (received (104 ∷ 105 ∷ []))
    ∷ time_out
    ∷ ready (received (10 ∷ []))
    ∷ select_failed
    ∷ ready (received (11 ∷ []))
    ∷ []

console_loop-printed_example : console_loop session ≡ (
  printed (codes "Message from console : hi")
      ∷ printed (codes "Time-out!")
      ∷ printed (codes "Message from console : " ++ (10 ∷ []))
      ∷ printed (codes "select() error. ")
      ∷ [],
  quit,
)
console_loop-printed_example =
    console_loop-printed session
      ((omega arith, (omega arith, tt)), omega arith, ((omega arith, tt), omega arith, tt))
