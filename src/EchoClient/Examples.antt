-- ===== src/EchoClient/Examples.antt =====
-- A user types two words and leaves.
use collection_of_mini_proje.Prelude.{ℕ, ◌≡◌, refl, true, none, some, List, [], ◌∷◌, arith}
use collection_of_mini_proje.RadixTree.Key.{key_eq}
use collection_of_mini_proje.Sockets.{zeros, Exit, running, Run, sent, printed, quit, all_done}
use collection_of_mini_proje.Sockets.Buffer.{length-zeros}
use collection_of_mini_proje.EchoServer.{accept_loop, child_process_work}
use collection_of_mini_proje.EchoServer.Sessions.{accepts, reads}
use collection_of_mini_proje.Epoll.{received, again, Wait, batch, Trace, epoll_main}
use collection_of_mini_proje.Epoll.Echo.{sent_to}
use collection_of_mini_proje.EchoClient.{is_quit, client_main}
use collection_of_mini_proje.EchoClient.Exchange.{IsWord, typed_words, answers, replies}
use collection_of_mini_proje.EchoClient.Servers.{
  forking_client_main, epoll_client_main, clients-servers,
}

hi-IsWord : IsWord (104 ∷ 105 ∷ [])
unfolding is_quit key_eq
hi-IsWord = record {
  non_empty = λ e. cc;
  non_zero = omega arith;
  short = omega arith;
  stays = refl;
}

abbrev hi : List ℕ
hi = 104 ∷ 105 ∷ []

-- The words come to the epoll server one by one, with those of another client between them.
abbrev waits : List Wait
waits =
    batch (
      record { fd = 5; accepted = none; attempts = received hi ∷ again ∷ [] }
      ∷ record { fd = 6; accepted = none; attempts = received (9 ∷ []) ∷ again ∷ [] }
      ∷ [])
    ∷ batch (record { fd = 5; accepted = none; attempts = received hi ∷ received [] ∷ [] } ∷ [])
    ∷ []

abbrev end : Exit Run
end = running (sent hi ∷ printed hi ∷ sent hi ∷ printed hi ∷ [], quit)

clients-servers_example :
    (client_main 3 true true
        (typed_words true (hi ∷ hi ∷ []))
        (answers (
          accept_loop
            (accepts (record { socket = 5; messages = hi ∷ hi ∷ []; ended = true } ∷ []))))
        (zeros 64)
      ≡ end)
    × (forking_client_main 3 true true
          (typed_words true (hi ∷ hi ∷ []))
          (answers (child_process_work 3 5 (reads true (hi ∷ hi ∷ []))))
          (zeros 64)
        ≡ end)
    × ((t : Trace) × (epoll_main 2 3 all_done (some 4) waits ≡ running t)
        × (epoll_client_main 3 true true
              (typed_words true (hi ∷ hi ∷ []))
              (replies (sent_to 5 t.0))
              (zeros 64)
            ≡ end))
clients-servers_example =
    clients-servers 3 5 3 4 true (hi ∷ hi ∷ []) (zeros 64) waits (omega arith)
      (hi-IsWord, (hi-IsWord, tt)) (length-zeros 64) (omega arith)
      (((refl, (refl, tt)), ((refl, tt), tt))) refl
