-- ===== src/Udp/Echo.antt =====
-- The client and the server together, and the client's buffer.
use collection_of_mini_proje.Prelude.{
  ℕ, suc, ◌+◌, ◌-◌, ◌≡◌, ◌≢◌, ◌<◌, ◌≤◌, refl, true, false, Option, none, some, List, [], ◌∷◌, ◌++◌,
  ◌==◌, length, drop, ltb, if◌then◌else◌, arith, length-append,
}
use collection_of_mini_proje.RadixTree.Key.{key_eq}
use collection_of_mini_proje.Sockets.{
  running, zeros, overlay, put, c_string, waiting, out_of_bounds,
}
use collection_of_mini_proje.Sockets.Buffer.{
  NonZero, extracted, zeroed, take-append, take-short, put_out, drop-zeros, c_string-append,
  length-zeros, length-drop,
}
use collection_of_mini_proje.Udp.{
  buf_size, Datagram, Output, printed, replied, sent, overrun, server_loop, server_main, is_quit,
  client_loop, client_main,
}

-- Words whose bytes are not zero and that leave two bytes of the buffer.
abbrev pub AreShort : List (List ℕ) → Type 0
AreShort [] = Unit
AreShort (w ∷ ws) = NonZero w × (length w + 1 < buf_size) × AreShort ws

-- No byte is a line feed.
abbrev pub NoFeed : List ℕ → Type 0
NoFeed [] = Unit
NoFeed (c ∷ s) = (c ≢ 10) × NoFeed s

abbrev pub AreWords : List (List ℕ) → Type 0
AreWords [] = Unit
AreWords (w ∷ ws) = NoFeed w × AreWords ws

abbrev pub datagrams : ℕ → List (List ℕ) → List (Option Datagram)
datagrams address [] = []
datagrams address (w ∷ ws) = some (record { address = address; bytes = w }) ∷ datagrams address ws

-- What a client at an address gets of the server's replies.
abbrev pub answers : ℕ → List Output → List (Option (List ℕ))
answers a [] = []
answers a (replied b bytes ∷ os) = if a == b then some bytes ∷ answers a os else answers a os
answers a (printed s ∷ os) = answers a os
answers a (sent s ∷ os) = answers a os
answers a (overrun ∷ os) = answers a os

abbrev pub replies : ℕ → List (List ℕ) → List Output
replies a [] = []
replies a (w ∷ ws) = printed w ∷ replied a w ∷ replies a ws

abbrev pub talk : List (List ℕ) → List Output
talk [] = []
talk (w ∷ ws) = sent w ∷ printed w ∷ talk ws

abbrev pub somes : List (List ℕ) → List (Option (List ℕ))
somes [] = []
somes (w ∷ ws) = some w ∷ somes ws

server_loop-replies :
    (a : ℕ) (ws : List (List ℕ))
    → AreShort ws
    → server_loop (datagrams a ws) ≡ (replies a ws, waiting)
unfolding server_loop
server_loop-replies a [] h = refl
server_loop-replies a (w ∷ ws) (z, short, h) = rw (
  take-short buf_size w (omega arith),
  zeroed w buf_size z (omega arith),
  take-append w (drop (length w) (zeros buf_size)),
  server_loop-replies a ws h,
)

answers-replies : (a : ℕ) (ws : List (List ℕ)) → answers a (replies a ws) ≡ somes ws
answers-replies a [] = refl
answers-replies a (w ∷ ws) =
    let same : (a == a) ≡ true = ground arith in rw (same, answers-replies a ws)

is_quit-word : (w : List ℕ) → NoFeed w → is_quit w ≡ false
unfolding is_quit key_eq
is_quit-word [] h = refl
is_quit-word (c ∷ []) h = ground arith
is_quit-word (c ∷ d ∷ s) h = ground arith

put-behind :
    (s buf : List ℕ) (x c b : ℕ)
    → put (suc (length s)) b (s ++ (x ∷ c ∷ buf)) ≡ some (s ++ (x ∷ b ∷ buf))
unfolding put
put-behind [] buf x c b = refl
put-behind (y ∷ s) buf x c b = rw (put-behind s buf x c b)

zeros-two : (n : ℕ) → zeros (suc n) ≡ 0 ∷ zeros n
unfolding zeros
zeros-two n = refl

-- The answer, with a zero stored one byte behind the terminating zero.
stored :
    (w : List ℕ)
    → NonZero w
    → length w + 1 < buf_size
    → (buf : List ℕ) × (put (suc (length w)) 0 (overlay w (zeros buf_size)) ≡ some buf)
      × (c_string buf ≡ some w)
      × (length buf ≡ buf_size)
stored w h short =
    let n = buf_size - length w - 2 in
    let left : buf_size - length w - 1 ≡ suc n = omega arith in
    (
      w ++ (0 ∷ 0 ∷ zeros n),
      rw (drop-zeros (length w) buf_size (omega arith), left, zeros-two)
          (put-behind w (zeros n) 0 0 0),
      c_string-append w (0 ∷ zeros n) h,
      omega (arith, length-append w (0 ∷ 0 ∷ zeros n), length-zeros n),
    )

client_loop-answers :
    (ws : List (List ℕ)) (message : List ℕ)
    → AreShort ws
    → AreWords ws
    → length message ≡ buf_size
    → client_loop ws (somes ws) message ≡ (talk ws, waiting)
unfolding client_loop
client_loop-answers [] message h k n = refl
client_loop-answers (w ∷ ws) message (z, short, h) (word, k) n =
    let (buf, e, s, _) = extracted w message z (omega (arith, n)) in
    let (buf', e', s', n') = stored w z short in
    rw (e, s, is_quit-word w word, e', s', client_loop-answers ws buf' h k n')

-- The client talks to the server: each word that it sends is printed by the server and, as the
-- answer, by the client, in order, whatever the client's buffer held. The sockets are made and
-- bound, the arguments given, no datagram is lost, and the words have no byte that is zero or a line
-- feed and leave two bytes of the buffer.
pub server_main-client_main :
    (argc a : ℕ) (ws : List (List ℕ)) (message : List ℕ)
    → 2 < argc
    → AreShort ws
    → AreWords ws
    → length message ≡ buf_size
    → (server_main 2 true true (datagrams a ws) ≡ running (replies a ws, waiting))
      × (client_main argc true ws (answers a (replies a ws)) message ≡ running (talk ws, waiting))
unfolding server_main client_main
server_main-client_main argc a ws message more h k n =
    let given : ltb argc 3 ≡ false = ground arith in
    (
      rw (server_loop-replies a ws h),
      rw (given, answers-replies a ws, client_loop-answers ws message h k n),
    )

put-answer :
    (bytes : List ℕ)
    → buf_size ≤ length bytes + 1
    → length bytes ≤ buf_size
    → put (suc (length bytes)) 0 (overlay bytes (zeros buf_size)) ≡ none
put-answer bytes long fits = put_out (suc (length bytes)) 0 (overlay bytes (zeros buf_size)) (
    omega (
      arith,
      length-append bytes (drop (length bytes) (zeros buf_size)),
      length-drop (length bytes) (zeros buf_size),
      length-zeros buf_size,
    ))

-- The client writes out of its buffer at every answer of 127 or 128 bytes to a word that it sends:
-- it stores a zero one byte behind the place where the answer ends.
pub client_loop_overflow :
    (w bytes : List ℕ) (ws : List (List ℕ)) (rs : List (Option (List ℕ))) (message : List ℕ)
    → NonZero w
    → NoFeed w
    → length w < length message
    → buf_size ≤ length bytes + 1
    → length bytes ≤ buf_size
    → client_loop (w ∷ ws) (some bytes ∷ rs) message ≡ (sent w ∷ [], out_of_bounds)
unfolding client_loop
client_loop_overflow w bytes ws rs message z word short long fits =
    let (buf, e, s, _) = extracted w message z short in
    rw (e, s, is_quit-word w word, put-answer bytes long fits)
