-- ===== src/MultiThreads/Indexed/Unread.antt =====
-- `epoll_workproc` of this server does not read its clients.
use collection_of_mini_proje.Prelude.{
  ℕ, ◌+◌, ◌≤◌, ◌<◌, ◌≡◌, refl, Bool, true, false, ◌||◌, Option, none, some, List, [], ◌∷◌, ◌++◌,
  ◌==◌, length, arith, Bool-cases, inl, inr,
}
use collection_of_mini_proje.Epoll.{Attempt, received, again, broken}
use collection_of_mini_proje.MultiThreads.Indexed.{
  Ready, Wait, wait_failed, batch, Event, nonblocking, add, remove, reading, written, closed, Trace,
  after, drain, register, handle, batch_loop, wait_loop, epoll_workproc,
}

-- Whether a descriptor is read.
unfoldable pub is_read : ℕ → List Event → Bool
is_read c [] = false
is_read c (reading fd ∷ es) = (fd == c) || is_read c es
is_read c (nonblocking fd ∷ es) = is_read c es
is_read c (add fd ∷ es) = is_read c es
is_read c (remove fd ∷ es) = is_read c es
is_read c (written fd bytes ∷ es) = is_read c es
is_read c (closed fd ∷ es) = is_read c es

is_read-append :
    (c : ℕ) (es fs : List Event)
    → is_read c es ≡ false
    → is_read c fs ≡ false
    → is_read c (es ++ fs) ≡ false
unfolding is_read
is_read-append c [] fs h k = k
is_read-append c (reading fd ∷ es) fs h k = ground (arith, is_read-append c es fs)
is_read-append c (nonblocking fd ∷ es) fs h k = is_read-append c es fs h k
is_read-append c (add fd ∷ es) fs h k = is_read-append c es fs h k
is_read-append c (remove fd ∷ es) fs h k = is_read-append c es fs h k
is_read-append c (written fd bytes ∷ es) fs h k = is_read-append c es fs h k
is_read-append c (closed fd ∷ es) fs h k = is_read-append c es fs h k

is_read-after :
    (c : ℕ) (t u : Trace)
    → is_read c t.0 ≡ false
    → is_read c u.0 ≡ false
    → is_read c (after t u).0 ≡ false
is_read-after c (es, true) (fs, done) h k = is_read-append c es fs h k
is_read-after c (es, false) (fs, done) h k = h

module _ (c : ℕ) where
  drain-unread : (i fd : ℕ) (xs : List Attempt) → i < c → is_read c (drain i fd xs).0 ≡ false
  unfolding drain is_read
  drain-unread i fd [] h = refl
  drain-unread i fd (again ∷ xs) h = ground arith
  drain-unread i fd (broken ∷ xs) h = ground (arith, drain-unread i fd xs h)
  drain-unread i fd (received bytes ∷ xs) h = ground (arith, drain-unread i fd xs h)

  register-unread : (o : Option ℕ) → is_read c (register o).0 ≡ false
  unfolding register is_read
  register-unread none = refl
  register-unread (some fd) = refl

  handle-unread :
      (serv_sock : ℕ) (attempts : ℕ → List Attempt) (i : ℕ) (r : Ready)
      → i < c
      → is_read c (handle serv_sock attempts i r).0 ≡ false
  unfolding handle
  handle-unread serv_sock attempts i r h = elim (Bool-cases (r.fd == serv_sock)) [
    | inl server ↦ rw server (register-unread r.accepted)
    | inr client ↦ rw client (drain-unread i r.fd (attempts i) h)
  ]

  batch_loop-unread :
      (serv_sock : ℕ) (attempts : ℕ → List Attempt) (i : ℕ) (rs : List Ready)
      → i + length rs ≤ c
      → is_read c (batch_loop serv_sock attempts i rs).0 ≡ false
  unfolding batch_loop is_read
  batch_loop-unread serv_sock attempts i [] h = refl
  batch_loop-unread serv_sock attempts i (r ∷ rs) h =
      is_read-after c (handle serv_sock attempts i r) (batch_loop serv_sock attempts (i + 1) rs)
        (handle-unread serv_sock attempts i r (omega arith))
        (batch_loop-unread serv_sock attempts (i + 1) rs (omega arith))

  -- Each batch has at most `c` events.
  abbrev pub Short : List Wait → Type 0
  Short [] = Unit
  Short (wait_failed ∷ ws) = Short ws
  Short (batch b ∷ ws) = (length b.ep_events ≤ c) × Short ws

  wait_loop-unread :
      (serv_sock epfd : ℕ) (ws : List Wait)
      → Short ws
      → is_read c (wait_loop serv_sock epfd ws).0 ≡ false
  unfolding wait_loop is_read
  wait_loop-unread serv_sock epfd [] h = refl
  wait_loop-unread serv_sock epfd (wait_failed ∷ ws) h = refl
  wait_loop-unread serv_sock epfd (batch b ∷ ws) h =
      is_read-after c (batch_loop serv_sock b.attempts 0 b.ep_events) (wait_loop serv_sock epfd ws)
        (batch_loop-unread serv_sock b.attempts 0 b.ep_events (omega (arith, h.0)))
        (wait_loop-unread serv_sock epfd ws h.1)

  -- A client is never read, whatever it sends, while no batch has more events than the number of
  -- its descriptor: the server reads the descriptors that the events' indices name.
  pub epoll_workproc-unread :
      (serv_sock : ℕ) (epfd : Option ℕ) (ws : List Wait)
      → Short ws
      → is_read c (epoll_workproc serv_sock epfd ws).0 ≡ false
  unfolding epoll_workproc is_read
  epoll_workproc-unread serv_sock none ws h = refl
  epoll_workproc-unread serv_sock (some epfd) ws h = wait_loop-unread serv_sock epfd ws h
