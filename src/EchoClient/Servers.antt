-- ===== src/EchoClient/Servers.antt =====
-- The echo clients with the iterative, the forking and the epoll server. The four directories have
-- copies of one client.
use collection_of_mini_proje.Prelude.{
  ℕ, ◌≡◌, ◌≢◌, ◌<◌, ap, ◌∙◌, Bool, true, some, List, [], ◌∷◌, length, arith,
}
use collection_of_mini_proje.Sockets.{Read, Exit, running, Run, all_done}
use collection_of_mini_proje.EchoServer.{accept_loop, buff_size, child_process_work}
use collection_of_mini_proje.EchoServer.Sessions.{
  Client, accepts, reads, accept_loop-served, child_loop-reads,
}
use collection_of_mini_proje.Epoll.{Wait, Trace, epoll_main}
use collection_of_mini_proje.Epoll.Echo.{Batches, from, sent_to, epoll_main-echo}
use collection_of_mini_proje.EchoClient.{client_main}
use collection_of_mini_proje.EchoClient.Exchange.{
  AreWords, AreWords-NonEmpty, AreWords-AreMessages, typed_words, answers, replies, answers-echoed,
  answers-conversation, talk, ending, served_one, client_main-replies,
}

-- `main` of the client beside the forking server.
unfoldable pub forking_client_main :
    ℕ → (socket_done connect_done : Bool) → List (List ℕ) → List Read → List ℕ → Exit Run
forking_client_main = client_main

-- `main` of the client beside the epoll server.
unfoldable pub epoll_client_main :
    ℕ → (socket_done connect_done : Bool) → List (List ℕ) → List Read → List ℕ → Exit Run
epoll_client_main = client_main

-- `main` of the client beside the server with threads.
unfoldable pub threads_client_main :
    ℕ → (socket_done connect_done : Bool) → List (List ℕ) → List Read → List ℕ → Exit Run
threads_client_main = client_main

child-answers :
    (serv_sock socket : ℕ) (ended : Bool) (ws : List (List ℕ))
    → AreWords ws
    → answers (child_process_work serv_sock socket (reads ended ws)) ≡ replies ws
unfolding child_process_work
child-answers serv_sock socket ended ws h =
    ap answers (child_loop-reads socket ended ws (AreWords-NonEmpty ws h))
    ∙ answers-echoed socket ended ws

loop-answers :
    (socket : ℕ) (ended : Bool) (ws : List (List ℕ))
    → AreWords ws
    → answers
        (accept_loop (accepts (record { socket = socket; messages = ws; ended = ended } ∷ [])))
      ≡ replies ws
loop-answers socket ended ws h =
    let client : Client = record { socket = socket; messages = ws; ended = ended } in
    ap answers (
      accept_loop-served (client ∷ []) (AreWords-AreMessages ws h, tt) ∙ served_one socket ended ws)
    ∙ answers-conversation socket ended ws h

-- The run of a client whose words all come back.
abbrev pub Talks : List (List ℕ) → Bool → Exit Run → Type 0
Talks ws ended e = e ≡ running (talk ws, ending ended)

-- The clients, given any port and address and a connection, with their servers: the iterative one,
-- the child of the forking one, and the epoll server, at which `waits` holds this client's words as
-- its messages among those of any other clients. Each word that the client sends is printed as the answer,
-- in order, and it leaves its loop just if the user ends, whatever its buffer held. The words are not
-- empty, fit into the buffer, have no byte that is zero and are not the word that ends the program;
-- each answer of a server is read by one call.
pub clients-servers :
    (argc socket serv_sock epfd : ℕ) (ended : Bool) (ws : List (List ℕ)) (buf : List ℕ)
    (waits : List Wait)
    → 2 < argc
    → AreWords ws
    → length buf ≡ buff_size
    → socket ≢ serv_sock
    → Batches waits
    → from socket waits ≡ ws
    → Talks ws ended (
        client_main argc true true
          (typed_words ended ws)
          (answers
            (accept_loop (accepts (record { socket = socket; messages = ws; ended = ended } ∷ []))))
          buf)
      × Talks ws ended (
          forking_client_main argc true true
            (typed_words ended ws)
            (answers (child_process_work serv_sock socket (reads ended ws)))
            buf)
      × ((t : Trace) × (epoll_main 2 serv_sock all_done (some epfd) waits ≡ running t)
          × Talks ws ended (
              epoll_client_main argc true true
                (typed_words ended ws)
                (replies (sent_to socket t.0))
                buf))
unfolding forking_client_main epoll_client_main
clients-servers argc socket serv_sock epfd ended ws buf waits more h n other batches sends =
    let talks = client_main-replies argc ended ws buf more h n in
    let (t, runs, got) =
      epoll_main-echo socket serv_sock other 2 epfd waits (omega arith) batches in
    (
      rw (loop-answers socket ended ws h) talks,
      rw (child-answers serv_sock socket ended ws h) talks,
      (t, runs, rw (got, sends) talks),
    )
