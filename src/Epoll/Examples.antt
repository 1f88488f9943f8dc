-- ===== src/Epoll/Examples.antt =====
-- Two clients, whose messages arrive in turn.
use collection_of_mini_proje.Prelude.{◌≡◌, refl, none, some, List, [], ◌∷◌, arith}
use collection_of_mini_proje.Sockets.{running, all_done}
use collection_of_mini_proje.Epoll.{received, again, Wait, batch, Trace, epoll_main}
use collection_of_mini_proje.Epoll.Echo.{sent_to, epoll_main-echo}

abbrev waits : List Wait
waits =
    batch (record { fd = 3; accepted = some 5; attempts = again ∷ [] } ∷ [])
    ∷ batch (
        record { fd = 3; accepted = some 6; attempts = again ∷ [] }
        ∷ record {
          fd = 5;
          accepted = none;
          attempts = received (1 ∷ []) ∷ received (2 ∷ []) ∷ again ∷ [];
        }
        ∷ [])
    ∷ batch (
        record { fd = 6; accepted = none; attempts = received (9 ∷ []) ∷ again ∷ [] }
        ∷ record { fd = 5; accepted = none; attempts = received (3 ∷ []) ∷ received [] ∷ [] }
        ∷ [])
    ∷ []

epoll_main-echo_example :
    (t : Trace) × (epoll_main 2 3 all_done (some 4) waits ≡ running t)
    × (sent_to 5 t.0 ≡ (1 ∷ []) ∷ (2 ∷ []) ∷ (3 ∷ []) ∷ [])
epoll_main-echo_example =
    epoll_main-echo 5 3 (omega arith) 2 4 waits (omega arith)
      ((refl, tt), ((refl, (refl, tt)), ((refl, (refl, tt)), tt)))
