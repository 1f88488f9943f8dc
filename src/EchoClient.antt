-- ===== src/EchoClient.antt =====
-- 网络编程入门/TCPServerDemo/src/client.cxx, and its copies beside the other servers: words from the
-- terminal are sent to an echo server, whose answers are printed.
pub mod Exchange
pub mod Servers
pub mod Examples
use collection_of_mini_proje.Prelude.{
  ℕ, Bool, Option, none, some, List, [], ◌∷◌, ◌++◌, ◌||◌, length, ltb, if◌then◌else◌,
}
use collection_of_mini_proje.Sockets.{
  Read, received, failed, socket, connect, Exit, usage, failed_at, running, overlay, put, c_string,
  extract, sent, printed, quit, waiting, out_of_bounds, Run, emit, in_bounds, in_string,
}
use collection_of_mini_proje.RadixTree.Key.{key_eq}

-- `strcmp(message, "q") == 0 || strcmp(message, "Q") == 0`
unfoldable pub is_quit : List ℕ → Bool
is_quit m = key_eq m (b'q' ∷ []) || key_eq m (b'Q' ∷ [])

-- A word from the terminal, as the string `m` in the buffer, or the end of the loop.
unfoldable pub typed : List ℕ → List ℕ → (List ℕ → List ℕ → Run) → Run
typed word buf next =
    in_bounds (extract word buf)
      (λ buf'. in_string (c_string buf') (λ m. if is_quit m then ([], quit) else next m buf'))

-- The message is sent, an answer read, terminated and printed. After a failed read the terminator
-- is stored at index -1.
unfoldable pub exchange : List ℕ → List ℕ → Read → (List ℕ → Run) → Run
exchange m buf failed next = emit (sent m) ([], out_of_bounds)
exchange m buf (received bytes) next = emit (sent m) (
    in_bounds (put (length bytes) 0 (overlay bytes buf))
      (λ buf'. in_string (c_string buf') (λ s. emit (printed s) (next buf'))))

-- The loop, over the words typed and the answers; it waits for what is missing.
unfoldable pub client_loop : List (List ℕ) → List Read → List ℕ → Run
client_loop [] rs buf = ([], waiting)
client_loop (w ∷ ws) [] buf = typed w buf (λ m buf'. emit (sent m) ([], waiting))
client_loop (w ∷ ws) (r ∷ rs) buf =
    let rest = λ (b : List ℕ). client_loop ws rs b in typed w buf (λ m buf'. exchange m buf' r rest)

-- `main`, with a buffer of any contents. At the end `quit`, it closes its socket.
unfoldable pub client_main :
    ℕ → (socket_done connect_done : Bool) → List (List ℕ) → List Read → List ℕ → Exit Run
client_main argc socket_done connect_done ws rs buf =
    if ltb argc 3
    then usage
    else if socket_done
    then (if connect_done then running (client_loop ws rs buf) else failed_at connect)
    else failed_at socket
