-- ===== src/MultiThreads/Indexed.antt =====
-- `epoll_workproc` of this server. It differs from that of 网络编程入门/EPOLL/src/server.cxx: a client's
-- bytes are read from the descriptor whose number is the index of the event, the client's socket
-- is left blocking, and the buffer is not cleared.
pub mod Unread
use collection_of_mini_proje.Prelude.{
  ℕ, ◌+◌, ◌≤◌, ◌<◌, ◌≡◌, refl, Bool, true, false, ◌&&◌, ◌||◌, Option, none, some, List, [], ◌∷◌,
  ◌++◌, ◌==◌, length, if◌then◌else◌, arith, Bool-cases, inl, inr,
}
use collection_of_mini_proje.Epoll.{Attempt, received, again, broken}

-- An event: its descriptor and what `accept4` returns.
pub record Ready : Type 0 where
  pub fd : ℕ
  pub accepted : Option ℕ

-- The events that `epoll_wait` yields, and what reads of each descriptor return while its events are handled.
pub record Batch : Type 0 where
  pub ep_events : List Ready
  pub attempts : ℕ → List Attempt

-- What `epoll_wait` returns. A time-out is a batch of no events.
pub data Wait : Type 0 where
  wait_failed : Wait
  batch : Batch → Wait

pub data Event : Type 0 where
  nonblocking : (fd : ℕ) → Event
  add : (fd : ℕ) → Event
  remove : (fd : ℕ) → Event
  reading : (fd : ℕ) → Event
  written : (fd : ℕ) → List ℕ → Event
  closed : (fd : ℕ) → Event

abbrev pub Trace : Type 0
Trace = List Event × Bool

abbrev pub emit : Event → Trace → Trace
emit e (es, ended) = (e ∷ es, ended)

abbrev pub after : Trace → Trace → Trace
after (es, ended) (fs, done) = (if ended then es ++ fs else es, ended && done)

-- The loop for a client `fd` whose event has the index `i`.
unfoldable pub drain : (i fd : ℕ) → List Attempt → Trace
drain i fd [] = ([], false)
drain i fd (again ∷ xs) = (reading i ∷ [], true)
drain i fd (broken ∷ xs) = emit (reading i) (drain i fd xs)
drain i fd (received bytes ∷ xs) =
    let rest = drain i fd xs in
    if length bytes == 0
    then (reading i ∷ remove fd ∷ closed fd ∷ [], true)
    else emit (reading i) (emit (written fd bytes) rest)

unfoldable pub register : Option ℕ → Trace
register none = ([], true)
register (some client_sock) = (add client_sock ∷ [], true)

unfoldable pub handle : ℕ → (ℕ → List Attempt) → ℕ → Ready → Trace
handle serv_sock attempts i r =
    if r.fd == serv_sock then register r.accepted else drain i r.fd (attempts i)

-- The loop over the events, from the index `i`.
unfoldable pub batch_loop : ℕ → (ℕ → List Attempt) → ℕ → List Ready → Trace
batch_loop serv_sock attempts i [] = ([], true)
batch_loop serv_sock attempts i (r ∷ rs) =
    after (handle serv_sock attempts i r) (batch_loop serv_sock attempts (i + 1) rs)

-- The loop over the calls of `epoll_wait`, and the `close` behind it.
unfoldable pub wait_loop : (serv_sock epfd : ℕ) → List Wait → Trace
wait_loop serv_sock epfd [] = ([], false)
wait_loop serv_sock epfd (wait_failed ∷ ws) = (closed epfd ∷ [], true)
wait_loop serv_sock epfd (batch b ∷ ws) =
    after (batch_loop serv_sock b.attempts 0 b.ep_events) (wait_loop serv_sock epfd ws)

-- `epoll_workproc`, where `epfd` is what `epoll_create1` returns.
unfoldable pub epoll_workproc : ℕ → Option ℕ → List Wait → Trace
epoll_workproc serv_sock none ws = ([], true)
epoll_workproc serv_sock (some epfd) ws =
    emit (nonblocking serv_sock) (emit (add serv_sock) (wait_loop serv_sock epfd ws))
