-- ===== src/Udp/News.antt =====
-- 网络编程入门/UDP/sender.cxx and receiver.cxx, over a multicast group, and news_sender_brd.cxx and
-- news_receiver_brd.cxx, by broadcast: a file's words, one datagram each.
use collection_of_mini_proje.Prelude.{
  ℕ, ◌≡◌, ◌<◌, ◌⊎◌, refl, Bool, true, false, Option, none, some, List, [], ◌∷◌, ◌==◌, length, take,
  ltb, if◌then◌else◌, arith,
}
use collection_of_mini_proje.Sockets.{
  bind, open_file, Exit, usage, failed_at, running, zeros, overlay, put, c_string, extract, Output,
  sent, printed, quit, waiting, Run, emit, in_bounds, in_string,
}
use collection_of_mini_proje.Sockets.Buffer.{
  NonZero, extracted, terminated, length-zeros, take-short,
}

-- `BUFFSIZE`
abbrev pub buff_size : ℕ
buff_size = 64

-- `while (srcFile >> buf)`: the buffer is clear before each word.
unfoldable pub send_loop : List (List ℕ) → Run
send_loop [] = ([], quit)
send_loop (w ∷ ws) =
    let rest = send_loop ws in
    in_bounds (extract w (zeros buff_size))
      (λ buf. in_string (c_string buf) (λ s. emit (sent s) rest))

-- `main` of sender.cxx.
unfoldable pub multicast_main : ℕ → (file_open : Bool) → List (List ℕ) → Exit Run
multicast_main argc file_open ws =
    if ltb argc 3 then usage else if file_open then running (send_loop ws) else failed_at open_file

-- `main` of news_sender_brd.cxx.
unfoldable pub broadcast_main : ℕ → (file_open : Bool) → List (List ℕ) → Exit Run
broadcast_main argc file_open ws =
    if ltb argc 3 then usage else if file_open then running (send_loop ws) else failed_at open_file

-- The loop of a receiver, over what `recvfrom` returns: -1, or the bytes of a datagram, cut to
-- `BUFFSIZE - 1`.
unfoldable pub receive_loop : List (Option (List ℕ)) → Run
receive_loop [] = ([], waiting)
receive_loop (none ∷ ds) = ([], quit)
receive_loop (some datagram ∷ ds) =
    let rest = receive_loop ds in
    let bytes = take 63 datagram in
    in_bounds (put (length bytes) 0 (overlay bytes (zeros buff_size)))
      (λ buf. in_string (c_string buf) (λ s. emit (printed s) rest))

-- `bind(…) == 1`, where `none` is -1.
abbrev pub is_one : Option ℕ → Bool
is_one none = false
is_one (some n) = n == 1

-- `main` of receiver.cxx and of news_receiver_brd.cxx, with what `bind` returns.
unfoldable pub group_main : ℕ → Option ℕ → List (Option (List ℕ)) → Exit Run
group_main argc bound ds =
    if ltb argc 3 then usage else if is_one bound then failed_at bind else running (receive_loop ds)

unfoldable pub receiver_main : ℕ → Option ℕ → List (Option (List ℕ)) → Exit Run
receiver_main argc bound ds =
    if ltb argc 2 then usage else if is_one bound then failed_at bind else running (receive_loop ds)

-- Words that are strings and fit into the buffer.
abbrev pub AreWords : List (List ℕ) → Type 0
AreWords [] = Unit
AreWords (w ∷ ws) = NonZero w × (length w < buff_size) × AreWords ws

-- The datagrams that a sender's output puts on the network.
abbrev pub datagrams : List Output → List (Option (List ℕ))
datagrams [] = []
datagrams (sent s ∷ os) = some s ∷ datagrams os
datagrams (printed s ∷ os) = datagrams os

abbrev pub sents : List (List ℕ) → List Output
sents [] = []
sents (w ∷ ws) = sent w ∷ sents ws

abbrev pub prints : List (List ℕ) → List Output
prints [] = []
prints (w ∷ ws) = printed w ∷ prints ws

send_loop-sents : (ws : List (List ℕ)) → AreWords ws → send_loop ws ≡ (sents ws, quit)
unfolding send_loop
send_loop-sents [] h = refl
send_loop-sents (w ∷ ws) (z, short, h) =
    let (buf, e, s, _) = extracted w (zeros buff_size) z (omega (arith, length-zeros buff_size)) in
    rw (e, s, send_loop-sents ws h)

receive_loop-prints :
    (ws : List (List ℕ)) → AreWords ws → receive_loop (datagrams (sents ws)) ≡ (prints ws, waiting)
unfolding receive_loop
receive_loop-prints [] h = refl
receive_loop-prints (w ∷ ws) (z, short, h) =
    let (buf, e, s, _) = terminated w (zeros buff_size) z (omega (arith, length-zeros buff_size)) in
    rw (take-short 63 w (omega arith), e, s, receive_loop-prints ws h)

-- Both pairs of programs: every word of the sender's file is printed by the receiver, in order, if
-- no datagram is lost, the arguments are given, the file opens, the receiver's port is bound, and
-- each word is a string that fits into the buffer.
pub receivers-senders :
    (argc : ℕ) (ws : List (List ℕ))
    → 2 < argc
    → AreWords ws
    → (multicast_main argc true ws ≡ running (sents ws, quit))
      × (group_main argc (some 0) (datagrams (sents ws)) ≡ running (prints ws, waiting))
      × (broadcast_main argc true ws ≡ running (sents ws, quit))
      × (receiver_main argc (some 0) (datagrams (sents ws)) ≡ running (prints ws, waiting))
unfolding multicast_main broadcast_main group_main receiver_main
receivers-senders argc ws more h =
    let three : ltb argc 3 ≡ false = ground arith in
    let two : ltb argc 2 ≡ false = ground arith in
    (
      rw (three, send_loop-sents ws h),
      rw (three, receive_loop-prints ws h),
      rw (three, send_loop-sents ws h),
      rw (two, receive_loop-prints ws h),
    )

-- The receivers never report an error of `bind`: with enough arguments and a result of `bind`, which
-- is 0 or -1, they go on to receive.
pub receivers_bind :
    (argc : ℕ) (bound : Option ℕ) (ds : List (Option (List ℕ)))
    → 2 < argc
    → (bound ≡ some 0) ⊎ (bound ≡ none)
    → (group_main argc bound ds ≡ running (receive_loop ds))
      × (receiver_main argc bound ds ≡ running (receive_loop ds))
unfolding group_main receiver_main
receivers_bind argc bound ds more b =
    let three : ltb argc 3 ≡ false = ground arith in
    let two : ltb argc 2 ≡ false = ground arith in
    let no_error : is_one bound ≡ false = ground arith in (rw (three, no_error), rw (two, no_error))
