-- ===== src/Epoll/Echo.antt =====
-- What the epoll server sends to each client, whatever the order in which the clients are ready.
use collection_of_mini_proje.Prelude.{
  ℕ, ◌≡◌, ◌≢◌, ◌<◌, inl, inr, refl, sym, ◌∙◌, true, false, Option, none, some, List, [], ◌∷◌, ◌++◌,
  ◌==◌, length, if◌then◌else◌, arith, append-nil, append_assoc, Bool-cases,
}
use collection_of_mini_proje.Sockets.{running, all_done}
use collection_of_mini_proje.Sockets.Buffer.{take-append}
use collection_of_mini_proje.Sockets.Start.{opened_lem}
use collection_of_mini_proje.Epoll.{
  Attempt, received, again, broken, Ready, Wait, wait_failed, batch, Event, nonblocking, add,
  remove, written, closed, Trace, after, drain, register, handle, batch_loop, wait_loop,
  epoll_workproc, epoll_main,
}

-- The reads of one event: messages and errors, and at last EAGAIN or the end of the stream.
abbrev pub Drained : List Attempt → Type 0
Drained [] = ⊥
Drained (again ∷ xs) = xs ≡ []
Drained (broken ∷ xs) = Drained xs
Drained (received [] ∷ xs) = xs ≡ []
Drained (received (b ∷ bytes) ∷ xs) = Drained xs

abbrev pub AllDrained : List Ready → Type 0
AllDrained [] = Unit
AllDrained (r ∷ rs) = Drained r.attempts × AllDrained rs

abbrev pub Batches : List Wait → Type 0
Batches [] = Unit
Batches (wait_failed ∷ ws) = ⊥
Batches (batch rs ∷ ws) = AllDrained rs × Batches ws

-- The messages that the reads return.
abbrev pub messages_of : List Attempt → List (List ℕ)
messages_of [] = []
messages_of (received [] ∷ xs) = messages_of xs
messages_of (received (b ∷ bytes) ∷ xs) = (b ∷ bytes) ∷ messages_of xs
messages_of (again ∷ xs) = messages_of xs
messages_of (broken ∷ xs) = messages_of xs

-- The messages that a client sends, over all its events.
abbrev pub from_batch : ℕ → List Ready → List (List ℕ)
from_batch c [] = []
from_batch c (r ∷ rs) = (if r.fd == c then messages_of r.attempts else []) ++ from_batch c rs

abbrev pub from : ℕ → List Wait → List (List ℕ)
from c [] = []
from c (wait_failed ∷ ws) = from c ws
from c (batch rs ∷ ws) = from_batch c rs ++ from c ws

-- What the server writes to a descriptor, call by call.
unfoldable pub sent_to : ℕ → List Event → List (List ℕ)
sent_to c [] = []
sent_to c (written fd bytes ∷ es) = (if fd == c then bytes ∷ [] else []) ++ sent_to c es
sent_to c (nonblocking fd ∷ es) = sent_to c es
sent_to c (add fd ∷ es) = sent_to c es
sent_to c (remove fd ∷ es) = sent_to c es
sent_to c (closed fd ∷ es) = sent_to c es

sent_to-append : (c : ℕ) (es fs : List Event) → sent_to c (es ++ fs) ≡ sent_to c es ++ sent_to c fs
unfolding sent_to
sent_to-append c [] fs = refl
sent_to-append c (written fd bytes ∷ es) fs =
    rw (sent_to-append c es fs)
      (sym (append_assoc (if fd == c then bytes ∷ [] else []) (sent_to c es) (sent_to c fs)))
sent_to-append c (nonblocking fd ∷ es) fs = sent_to-append c es fs
sent_to-append c (add fd ∷ es) fs = sent_to-append c es fs
sent_to-append c (remove fd ∷ es) fs = sent_to-append c es fs
sent_to-append c (closed fd ∷ es) fs = sent_to-append c es fs

sent_to-close :
    (c fd : ℕ) (t : Trace) → sent_to c (after t (closed fd ∷ [], true)).0 ≡ sent_to c t.0
unfolding sent_to
sent_to-close c fd (es, true) = sent_to-append c es (closed fd ∷ []) ∙ append-nil (sent_to c es)
sent_to-close c fd (es, false) = refl

-- One event of a client is read to its end.
drain_lem :
    (c fd : ℕ) (xs : List Attempt)
    → Drained xs
    → (sent_to c (drain fd xs).0 ≡ (if fd == c then messages_of xs else []))
      × ((drain fd xs).1 ≡ true)
unfolding drain sent_to
drain_lem c fd [] h = absurd h
drain_lem c fd (again ∷ xs) h = (rw h (ground arith), refl)
drain_lem c fd (broken ∷ xs) h = drain_lem c fd xs h
drain_lem c fd (received [] ∷ xs) h = (rw h (ground arith), refl)
drain_lem c fd (received (b ∷ bytes) ∷ xs) h =
    let (e, d) = drain_lem c fd xs h in
    let more : (length (b ∷ bytes) == 0) ≡ false = ground arith in
    (
      rw more (
          rw (take-append (b ∷ bytes), e)
            (elim (Bool-cases (fd == c)) [ inl same ↦ rw same | inr other ↦ rw other ])),
      rw more d,
    )

register_lem : (c : ℕ) (o : Option ℕ) → (sent_to c (register o).0 ≡ []) × ((register o).1 ≡ true)
unfolding register sent_to
register_lem c none = (refl, refl)
register_lem c (some fd) = (refl, refl)

module _ (c serv_sock : ℕ) (client : c ≢ serv_sock) where
  handle_lem :
      (r : Ready)
      → Drained r.attempts
      → (sent_to c (handle serv_sock r).0 ≡ (if r.fd == c then messages_of r.attempts else []))
        × ((handle serv_sock r).1 ≡ true)
  unfolding handle
  handle_lem r h = elim (Bool-cases (r.fd == serv_sock)) [
    | inl server ↦
        let other : (r.fd == c) ≡ false = ground arith in
        rw (server, other) (register_lem c r.accepted)
    | inr other ↦ rw other (drain_lem c r.fd r.attempts h)
  ]

  batch_loop_lem :
      (rs : List Ready)
      → AllDrained rs
      → (sent_to c (batch_loop serv_sock rs).0 ≡ from_batch c rs)
        × ((batch_loop serv_sock rs).1 ≡ true)
  unfolding batch_loop sent_to
  batch_loop_lem [] h = (refl, refl)
  batch_loop_lem (r ∷ rs) h =
      let (e, d) = handle_lem r h.0 in
      let (e', d') = batch_loop_lem rs h.1 in
      (
        rw d (rw (sent_to-append c (handle serv_sock r).0 (batch_loop serv_sock rs).0, e, e')),
        rw (d, d'),
      )

  wait_loop_lem :
      (epfd : ℕ) (ws : List Wait)
      → Batches ws
      → sent_to c (wait_loop serv_sock epfd ws).0 ≡ from c ws
  unfolding wait_loop sent_to
  wait_loop_lem epfd [] h = refl
  wait_loop_lem epfd (wait_failed ∷ ws) h = absurd h
  wait_loop_lem epfd (batch rs ∷ ws) h =
      let (e, d) = batch_loop_lem rs h.0 in
      rw d (
        rw (
          sent_to-append c (batch_loop serv_sock rs).0 (wait_loop serv_sock epfd ws).0,
          e,
          wait_loop_lem epfd ws h.1,
        ))

  -- Whatever the order in which clients become ready, the server writes to each client exactly the
  -- messages that it reads from it, each by one call, in order. The port is given, the set-up and `epoll_create1`
  -- succeed, `epoll_wait` does not fail, and the reads of an event end with EAGAIN or the end of
  -- the stream.
  pub epoll_main-echo :
      (argc epfd : ℕ) (ws : List Wait)
      → 1 < argc
      → Batches ws
      → (t : Trace) × (epoll_main argc serv_sock all_done (some epfd) ws ≡ running t)
        × (sent_to c t.0 ≡ from c ws)
  unfolding epoll_main epoll_workproc sent_to
  epoll_main-echo argc epfd ws more h =
      let t = epoll_workproc serv_sock (some epfd) ws in
      (
        after t (closed serv_sock ∷ [], true),
        opened_lem 2 argc (after t (closed serv_sock ∷ [], true)) (omega arith),
        sent_to-close c serv_sock t ∙ wait_loop_lem epfd ws h,
      )
