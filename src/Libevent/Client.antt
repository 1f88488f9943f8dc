-- ===== src/Libevent/Client.antt =====
-- libevent_client_withbuffer.cxx.
use collection_of_mini_proje.Prelude.{
  ℕ, ◌≡◌, ◌≤◌, refl, Bool, true, false, Option, none, some, List, [], ◌∷◌, ◌++◌, length, ltb,
  if◌then◌else◌, arith, Bool-cases, inl, inr,
}
use collection_of_mini_proje.Sockets.{
  overlay, put, c_string, printed, quit, out_of_bounds, Run, emit, in_bounds, in_string,
}
use collection_of_mini_proje.Sockets.Buffer.{NonZero, terminated, put_full}
use collection_of_mini_proje.Libevent.{
  Call, made, nonblocking, closed, buffered, freed_buffer, freed_event, dispatched, Notice,
  notice_of, made_of, closed_of, got,
}

-- `tcp_connect_server`, by whether the address is valid, what `socket` returns, and whether `connect`
-- succeeds.
unfoldable pub tcp_connect_server :
    (valid : Bool) → Option ℕ → (connect_done : Bool) → List Call × Option ℕ
tcp_connect_server false socket connect_done = ([], none)
tcp_connect_server true none connect_done = ([], none)
tcp_connect_server true (some sockfd) true = (made sockfd ∷ nonblocking sockfd ∷ [], some sockfd)
tcp_connect_server true (some sockfd) false = (made sockfd ∷ closed sockfd ∷ [], none)

-- How `main` ends: without arguments, without a connection, or when the events have ended.
pub data Exit : Type 0 where
  usage connect_error finished : Exit

unfoldable pub client_main :
    ℕ → (valid : Bool) → Option ℕ → (connect_done : Bool) → List Call × Exit
client_main argc valid socket connect_done =
    let (cs, fd) = tcp_connect_server valid socket connect_done in
    if ltb argc 3 then ([], usage) else elim fd [
      | none ↦ (cs, connect_error)
      | some sockfd ↦ (cs ++ (buffered sockfd ∷ dispatched sockfd ∷ []), finished)
    ]

-- `cmd_msg_cb`: the bytes sent to the server, or `none` for the exit after a failed read.
unfoldable pub cmd_msg_cb : Option (List ℕ) → Option (List ℕ)
cmd_msg_cb none = none
cmd_msg_cb (some msg) = some msg

-- The size of the buffers.
abbrev pub msg_size : ℕ
msg_size = 1024

-- `server_msg_cb`, with the bytes that `bufferevent_read` returns, at most the size of the buffer,
-- and what the buffer holds before.
unfoldable pub server_msg_cb : List ℕ → List ℕ → Run
server_msg_cb bytes msg =
    in_bounds (put (length bytes) 0 (overlay bytes msg))
      (λ msg'. in_string (c_string msg') (λ text. emit (printed text) ([], quit)))

unfoldable pub event_cb : (eof error : Bool) → Notice × List Call
event_cb eof error = (notice_of eof error, freed_buffer ∷ freed_event ∷ [])

-- For bytes that are not zero, and a buffer of any contents, the callback prints the message, but
-- writes out of its buffer if the message fills it.
pub server_msg_cb_lem :
    (bytes msg : List ℕ)
    → NonZero bytes
    → length bytes ≤ msg_size
    → length msg ≡ msg_size
    → server_msg_cb bytes msg
      ≡ (if ltb (length bytes) msg_size then (printed bytes ∷ [], quit) else ([], out_of_bounds))
unfolding server_msg_cb
server_msg_cb_lem bytes msg h fits n = elim (Bool-cases (ltb (length bytes) msg_size)) [
  | inl short ↦ let (msg', e, s, _) = terminated bytes msg h (ground (arith, n)) in rw (short, e, s)
  | inr long ↦
      let full : put (length bytes) 0 (overlay bytes msg) ≡ none =
        put_full bytes msg (ground (arith, n)) in
      rw (long, full)
]

-- Whatever fails, the client keeps no socket that it does not use: each one that it makes is closed
-- or returned.
pub tcp_connect_server_lem :
    (valid : Bool) (socket : Option ℕ) (connect_done : Bool)
    → let (cs, result) = tcp_connect_server valid socket connect_done in
      made_of cs ≡ closed_of cs ++ got result
unfolding tcp_connect_server made_of closed_of
tcp_connect_server_lem false socket connect_done = refl
tcp_connect_server_lem true none connect_done = refl
tcp_connect_server_lem true (some fd) true = refl
tcp_connect_server_lem true (some fd) false = refl
