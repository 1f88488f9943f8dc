-- ===== src/Udp.antt =====
-- 网络编程入门/UDP/UDPServer.cxx and UDPClient.cxx: an echo server and its client over datagrams.
pub mod Echo
pub mod News
pub mod Examples
use collection_of_mini_proje.Prelude.{
  ℕ, zero, suc, Bool, not, ◌||◌, Option, none, some, List, [], ◌∷◌, ◌++◌, ◌==◌, length, take, ltb,
  if◌then◌else◌,
}
use collection_of_mini_proje.Sockets.{
  socket, bind, Exit, usage, failed_at, running, zeros, overlay, put, c_string, extract, Ending,
  waiting, quit, out_of_bounds, over_read,
}
use collection_of_mini_proje.RadixTree.Key.{key_eq}

-- `BUF_SIZE`
abbrev pub buf_size : ℕ
buf_size = 128

pub record Datagram : Type 0 where
  pub address : ℕ
  pub bytes : List ℕ

-- `overrun` is a call of `sendto` for (size_t)-1 bytes.
pub data Output : Type 0 where
  printed : List ℕ → Output
  replied : (address : ℕ) → List ℕ → Output
  sent : List ℕ → Output
  overrun : Output

abbrev pub Run : Type 0
Run = List Output × Ending

abbrev pub emit : Output → Run → Run
emit o (os, e) = (o ∷ os, e)

abbrev pub in_bounds : Option (List ℕ) → (List ℕ → Run) → Run
in_bounds none next = ([], out_of_bounds)
in_bounds (some buf) next = next buf

abbrev pub in_string : Option (List ℕ) → (List ℕ → Run) → Run
in_string none next = ([], over_read)
in_string (some s) next = next s

-- The loop of the server, over what `recvfrom` returns: -1, or a datagram, cut to the buffer.
unfoldable pub server_loop : List (Option Datagram) → Run
server_loop [] = ([], waiting)
server_loop (none ∷ ds) = emit (printed []) (emit overrun (server_loop ds))
server_loop (some d ∷ ds) =
    let rest = server_loop ds in
    let bytes = take buf_size d.bytes in
    let message = overlay bytes (zeros buf_size) in
    in_string (c_string message)
      (λ s. emit (printed s) (emit (replied d.address (take (length bytes) message)) rest))

unfoldable pub server_main : ℕ → (socket_done bind_done : Bool) → List (Option Datagram) → Exit Run
server_main argc socket_done bind_done ds =
    if not (argc == 2)
    then usage
    else if socket_done
    then (if bind_done then running (server_loop ds) else failed_at bind)
    else failed_at socket

-- `strcmp(message, "q\n") == 0 || strcmp(message, "Q\n") == 0`
unfoldable pub is_quit : List ℕ → Bool
is_quit m = key_eq m (b'q' ∷ 10 ∷ []) || key_eq m (b'Q' ∷ 10 ∷ [])

-- `str_len + 1`, for what `recvfrom` returns, and the bytes in the buffer then.
abbrev pub end_of : Option (List ℕ) → ℕ
end_of none = 0
end_of (some bytes) = suc (length bytes)

abbrev pub filled : Option (List ℕ) → List ℕ
filled none = zeros buf_size
filled (some bytes) = overlay bytes (zeros buf_size)

-- The loop of the client, over the words typed and the answers of at most `BUF_SIZE` bytes.
unfoldable pub client_loop : List (List ℕ) → List (Option (List ℕ)) → List ℕ → Run
client_loop [] rs message = ([], waiting)
client_loop (w ∷ ws) [] message = in_bounds (extract w message) (λ buf.
    in_string (c_string buf) (λ m. if is_quit m then ([], quit) else emit (sent m) ([], waiting)))
client_loop (w ∷ ws) (r ∷ rs) message =
    let rest = λ (b : List ℕ). client_loop ws rs b in
    in_bounds (extract w message) (λ buf. in_string (c_string buf) (λ m.
      if is_quit m
      then ([], quit)
      else emit (sent m) (
          in_bounds (put (end_of r) 0 (filled r))
            (λ buf'. in_string (c_string buf') (λ s. emit (printed s) (rest buf'))))))

unfoldable pub client_main :
    ℕ → (socket_done : Bool) → List (List ℕ) → List (Option (List ℕ)) → List ℕ → Exit Run
client_main argc socket_done ws rs message =
    if ltb argc 3
    then usage
    else if socket_done
    then running (client_loop ws rs message)
    else failed_at socket
