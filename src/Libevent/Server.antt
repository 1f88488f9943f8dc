-- ===== src/Libevent/Server.antt =====
-- libevent_server_withbuffer.cxx.
pub mod Reply
use collection_of_mini_proje.Prelude.{
  ℕ, suc, ◌+◌, Bool, Option, none, some, List, [], ◌∷◌, ◌++◌, length, drop, ltb, if◌then◌else◌,
}
use collection_of_mini_proje.Sockets.{
  zeros, overlay, put, c_string, sent, printed, quit, Run, emit, in_bounds, in_string,
}
use collection_of_mini_proje.Libevent.{
  codes, Call, made, reusable, nonblocking, closed, buffered, freed_buffer, dispatched, Notice,
  notice_of,
}

-- `tcp_server_init`, by what `socket` returns and whether `bind` and `listen` succeed. The value that
-- `err_func` returns is not used.
unfoldable pub tcp_server_init : Option ℕ → (bind_done listen_done : Bool) → List Call × Option ℕ
tcp_server_init none bind_done listen_done = ([], none)
tcp_server_init (some listener) bind_done listen_done =
    let bind_calls : List Call = if bind_done then [] else closed listener ∷ [] in
    let listen_calls : List Call = if listen_done then [] else closed listener ∷ [] in
    (
      made listener
          ∷ reusable listener
          ∷ (bind_calls ++ (listen_calls ++ (nonblocking listener ∷ []))),
      some listener,
    )

-- `main`: its calls, and whether it ends with the error.
unfoldable pub server_main : Option ℕ → (bind_done listen_done : Bool) → List Call × Bool
server_main socket bind_done listen_done =
    let (cs, listener) = tcp_server_init socket bind_done listen_done in
    elim listener [ none ↦ (cs, Bool.true) | some fd ↦ (cs ++ (dispatched fd ∷ []), Bool.false) ]

-- `accept_cb`, for a client that `accept4` returns.
unfoldable pub accept_cb : ℕ → List Call
accept_cb sockfd = made sockfd ∷ nonblocking sockfd ∷ buffered sockfd ∷ []

unfoldable pub event_cb : (eof error : Bool) → Notice × List Call
event_cb eof error = (notice_of eof error, freed_buffer ∷ [])

-- The size of the two buffers.
abbrev pub msg_size : ℕ
msg_size = 4096

abbrev pub greeting : List ℕ
greeting = codes "I have recvieced the msg: "

-- `strcat`: the string `s` behind the string `p` at the start of a buffer.
unfoldable pub strcat : List ℕ → List ℕ → List ℕ → Option (List ℕ)
strcat p s buf =
    let both = p ++ s in
    if ltb (length both) (length buf)
    then some (both ++ (0 ∷ drop (suc (length both)) buf))
    else Option.none

-- `socket_read_cb`, with the bytes that `bufferevent_read` returns, at most the size of the buffer,
-- and what the buffer holds before. It returns, which is `quit`, or leaves a buffer.
unfoldable pub socket_read_cb : List ℕ → List ℕ → Run
socket_read_cb bytes msg = in_bounds (put (length bytes) 0 (overlay bytes msg)) (λ msg'.
    in_string (c_string msg') (λ text. emit (printed text) (
      in_bounds (strcat greeting text (overlay greeting (zeros msg_size)))
        (λ reply. in_string (c_string reply) (λ s. emit (sent s) ([], quit))))))
