-- ===== src/EchoServer/Examples.antt =====
-- Three clients, of which the second stays connected.
use collection_of_mini_proje.Prelude.{◌≡◌, true, false, List, [], ◌∷◌, arith}
use collection_of_mini_proje.Sockets.{running, all_done}
use collection_of_mini_proje.EchoServer.{displayed, written, closed, server_main, forking_main}
use collection_of_mini_proje.EchoServer.Sessions.{
  Client, AllNonEmpty, AllMessages, accepts, server_main-served, forks, forking_main-children,
}

abbrev clients : List Client
clients =
    (record { socket = 4; messages = (104 ∷ 105 ∷ []) ∷ []; ended = true })
    ∷ (record { socket = 5; messages = (111 ∷ []) ∷ []; ended = false })
    ∷ (record { socket = 6; messages = (120 ∷ []) ∷ []; ended = true })
    ∷ []

clients-NonEmpty : AllNonEmpty clients
clients-NonEmpty = ((λ e. cc, tt), ((λ e. cc, tt), ((λ e. cc, tt), tt)))

clients-Messages : AllMessages clients
clients-Messages = (
  (((λ e. cc), omega arith, omega arith), tt),
  ((((λ e. cc), omega arith, omega arith), tt), ((((λ e. cc), omega arith, omega arith), tt), tt)),
)

server_main-served_example :
    server_main 2 all_done (accepts clients)
    ≡ running (
        displayed (104 ∷ 105 ∷ [])
        ∷ written 4 (104 ∷ 105 ∷ [])
        ∷ closed 4
        ∷ displayed (111 ∷ [])
        ∷ written 5 (111 ∷ [])
        ∷ [])
server_main-served_example = server_main-served 2 clients (omega arith) clients-Messages

forking_main-children_example :
    forking_main 2 3 all_done (forks clients)
    ≡ running (
      closed 4 ∷ closed 5 ∷ closed 6 ∷ [],
      (closed 3 ∷ written 4 (104 ∷ 105 ∷ []) ∷ closed 4 ∷ [])
          ∷ (closed 3 ∷ written 5 (111 ∷ []) ∷ [])
          ∷ (closed 3 ∷ written 6 (120 ∷ []) ∷ closed 6 ∷ [])
          ∷ [],
    )
forking_main-children_example = forking_main-children 2 3 clients (omega arith) clients-NonEmpty
