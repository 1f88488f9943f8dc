-- ===== src/MultiThreads/Examples.antt =====
-- The four servers on small inputs.
use collection_of_mini_proje.Prelude.{◌≡◌, refl, inr, true, false, none, some, List, [], ◌∷◌, arith}
use collection_of_mini_proje.Sockets.{failed}
use collection_of_mini_proje.Epoll.{again}
use collection_of_mini_proje.MultiThreads.Select.{Round, watch, select_workproc}
use collection_of_mini_proje.MultiThreads.Select.Idle.{select_workproc-idle}
use collection_of_mini_proje.MultiThreads.Indexed.{Wait, wait_failed, batch, epoll_workproc}
use collection_of_mini_proje.MultiThreads.Indexed.Unread.{is_read, epoll_workproc-unread}
use collection_of_mini_proje.MultiThreads.Pthread.{
  Machine, begin, accept_step, create_step, Reach, begun, more, accepts, creates,
}
use collection_of_mini_proje.MultiThreads.Pthread.Sharing.{Reach-shared}

-- A client waits at the server's socket 3.
abbrev waiting : Round
waiting = record {
  select_failed = false;
  fd_num = 1;
  cpy_reads = 3 ∷ [];
  accepted = some 4;
  read = λ fd. failed;
}

select_workproc-idle_example : select_workproc 3 [] (waiting ∷ waiting ∷ []) ≡ (watch 3 [], [])
select_workproc-idle_example =
    select_workproc-idle 3 [] (waiting ∷ waiting ∷ []) (omega arith)
      (refl, inr refl, (refl, inr refl, tt))

-- The client at 5 is ready after it was accepted.
abbrev waits : List Wait
waits =
    batch (record {
      ep_events = record { fd = 3; accepted = some 5 } ∷ [];
      attempts = λ fd. again ∷ [];
    })
    ∷ batch (record {
      ep_events = record { fd = 5; accepted = none } ∷ [];
      attempts = λ fd. again ∷ [];
    })
    ∷ wait_failed
    ∷ []

epoll_workproc-unread_example : is_read 5 (epoll_workproc 3 (some 4) waits).0 ≡ false
epoll_workproc-unread_example =
    epoll_workproc-unread 5 3 (some 4) waits (omega arith, (omega arith, tt))

-- The thread for the client at 4 has been made, but has not read its argument.
abbrev one_thread : Machine
one_thread = record {
  client_sock = some 4;
  creating = false;
  created = 1;
  serving = [];
  unmade = 0;
  accepted = some 4 ∷ [];
}

one_thread-Reach : Reach (begin none) one_thread
unfolding accept_step create_step
one_thread-Reach = more (more begun (accepts (some 4) refl refl)) (creates true refl refl)

-- Both threads serve the second client, at 5.
Reach-shared_example : Reach (begin none) (record {
  client_sock = some 5;
  creating = false;
  created = 0;
  serving = some 5 ∷ some 5 ∷ [];
  unmade = 0;
  accepted = some 5 ∷ some 4 ∷ [];
})
Reach-shared_example = Reach-shared (some 5) one_thread-Reach refl
