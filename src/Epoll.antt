-- ===== src/Epoll.antt =====
-- 网络编程入门/EPOLL/src/server.cxx: one thread serves all clients over `epoll`. What the system calls
-- return is the input, in order; a list of reads that has ended without its last answer stands for
-- a loop that still reads.
pub mod Echo
pub mod Examples
use collection_of_mini_proje.Prelude.{
  ℕ, Bool, true, false, ◌&&◌, Option, none, some, List, [], ◌∷◌, ◌++◌, ◌==◌, length, take,
  if◌then◌else◌,
}
use collection_of_mini_proje.Sockets.{Setup, Exit, opened, zeros, overlay}
use collection_of_mini_proje.EchoServer.{buff_size}

-- A read of a socket that does not block: bytes, of which none are the end of the stream; the error
-- EAGAIN; another error.
pub data Attempt : Type 0 where
  received : List ℕ → Attempt
  again broken : Attempt

-- An event of `epoll_wait`: its descriptor, what `accept4` returns if it is the server's, where
-- `none` is -1, and what its reads return if it is not.
pub record Ready : Type 0 where
  pub fd : ℕ
  pub accepted : Option ℕ
  pub attempts : List Attempt

-- What `epoll_wait` returns. A time-out is a batch of no events.
pub data Wait : Type 0 where
  wait_failed : Wait
  batch : List Ready → Wait

pub data Event : Type 0 where
  nonblocking : (fd : ℕ) → Event
  add : (fd : ℕ) → Event
  remove : (fd : ℕ) → Event
  written : (fd : ℕ) → List ℕ → Event
  closed : (fd : ℕ) → Event

-- The events, and whether the loop has ended.
abbrev pub Trace : Type 0
Trace = List Event × Bool

abbrev pub emit : Event → Trace → Trace
emit e (es, ended) = (e ∷ es, ended)

-- What follows a loop that has ended.
abbrev pub after : Trace → Trace → Trace
after (es, ended) (fs, done) = (if ended then es ++ fs else es, ended && done)

-- The loop that reads a client until nothing is left. An error other than EAGAIN is tried again.
unfoldable pub drain : ℕ → List Attempt → Trace
drain fd [] = ([], false)
drain fd (again ∷ xs) = ([], true)
drain fd (broken ∷ xs) = drain fd xs
drain fd (received bytes ∷ xs) =
    let rest = drain fd xs in
    let str_len = length bytes in
    if str_len == 0
    then (remove fd ∷ closed fd ∷ [], true)
    else emit (written fd (take str_len (overlay bytes (zeros buff_size)))) rest

-- A new client. For the descriptor -1, `fcntl` and `epoll_ctl` fail and change nothing.
unfoldable pub register : Option ℕ → Trace
register none = ([], true)
register (some client_sock) = (nonblocking client_sock ∷ add client_sock ∷ [], true)

unfoldable pub handle : ℕ → Ready → Trace
handle serv_sock r = if r.fd == serv_sock then register r.accepted else drain r.fd r.attempts

-- The loop over the events of a batch.
unfoldable pub batch_loop : ℕ → List Ready → Trace
batch_loop serv_sock [] = ([], true)
batch_loop serv_sock (r ∷ rs) = after (handle serv_sock r) (batch_loop serv_sock rs)

-- The loop over the calls of `epoll_wait`, and the `close` behind it.
unfoldable pub wait_loop : (serv_sock epfd : ℕ) → List Wait → Trace
wait_loop serv_sock epfd [] = ([], false)
wait_loop serv_sock epfd (wait_failed ∷ ws) = (closed epfd ∷ [], true)
wait_loop serv_sock epfd (batch rs ∷ ws) =
    after (batch_loop serv_sock rs) (wait_loop serv_sock epfd ws)

-- `epoll_workproc`, where `epfd` is what `epoll_create1` returns.
unfoldable pub epoll_workproc : ℕ → Option ℕ → List Wait → Trace
epoll_workproc serv_sock none ws = ([], true)
epoll_workproc serv_sock (some epfd) ws =
    emit (nonblocking serv_sock) (emit (add serv_sock) (wait_loop serv_sock epfd ws))

-- `main`, which closes the server's socket when `epoll_workproc` has returned.
unfoldable pub epoll_main : (argc serv_sock : ℕ) → Setup → Option ℕ → List Wait → Exit Trace
epoll_main argc serv_sock s epfd ws =
    opened 2 argc s (after (epoll_workproc serv_sock epfd ws) (closed serv_sock ∷ [], true))
