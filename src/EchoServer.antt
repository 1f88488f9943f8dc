-- ===== src/EchoServer.antt =====
-- 网络编程入门/TCPServerDemo/src/server.cxx, which serves one client after the other, and
-- 网络编程入门/TCPServerDemoMultiProcess/src/server.cxx, which forks a process for each client. What
-- the system calls return is the input, in order; what they do is the output. A list of reads that
-- has ended stands for a read that still blocks.
pub mod Sessions
pub mod Examples
use collection_of_mini_proje.Sockets.{
  Read, received, failed, Setup, Exit, opened, zeros, overlay, c_string,
}
use collection_of_mini_proje.Prelude.{
  ℕ, zero, suc, ◌-◌, Bool, true, false, Option, none, some, List, [], ◌∷◌, ◌++◌, ◌==◌, length, take,
  if◌then◌else◌, ltb,
}

-- `BUFFSIZE`
abbrev pub buff_size : ℕ
buff_size = 64

pub data Accept : Type 0 where
  refused : Accept
  incoming : (client : ℕ) → List Read → Accept

-- `displayed` is a string printed to the terminal, and `over_read` such a print that reads behind the
-- end of the buffer, after which nothing is defined. `overrun` is a write of (size_t)-1 bytes from
-- the buffer.
pub data Event : Type 0 where
  displayed : List ℕ → Event
  over_read : (client : ℕ) → Event
  written : (client : ℕ) → List ℕ → Event
  overrun : (client : ℕ) → Event
  closed : (socket : ℕ) → Event

-- The buffer, which was cleared before the read. A read returns at most `BUFFSIZE` bytes; the loops
-- take lists of any length.
abbrev pub buffer : List ℕ → List ℕ
buffer bytes = overlay bytes (zeros buff_size)

-- The print of the string in the buffer, and what follows it.
abbrev pub display : ℕ → Option (List ℕ) → List Event × Bool → List Event × Bool
display client none next = (over_read client ∷ [], false)
display client (some text) (es, ended) = (displayed text ∷ es, ended)

-- The loop over a client's messages, with the `close` behind it, and whether it has ended. A read
-- that fails leaves the buffer empty.
unfoldable pub echo_loop : ℕ → List Read → List Event × Bool
echo_loop client [] = ([], false)
echo_loop client (failed ∷ rs) =
    let (es, ended) = echo_loop client rs in
    display client (c_string (zeros buff_size)) (overrun client ∷ es, ended)
echo_loop client (received bytes ∷ rs) =
    let (es, ended) = echo_loop client rs in
    let message = buffer bytes in
    let str_len = length bytes in
    if str_len == 0
    then (closed client ∷ [], true)
    else display client (c_string message) (written client (take str_len message) ∷ es, ended)

-- The loop of `main` over the clients.
unfoldable pub accept_loop : List Accept → List Event
accept_loop [] = []
accept_loop (refused ∷ cs) = accept_loop cs
accept_loop (incoming client rs ∷ cs) =
    let rest = accept_loop cs in
    let (es, ended) = echo_loop client rs in if ended then es ++ rest else es

-- `ChildProcessWork`: the child closes the server's socket, and then serves its client.
unfoldable pub child_loop : ℕ → List Read → List Event
child_loop client [] = []
child_loop client (failed ∷ rs) = overrun client ∷ child_loop client rs
child_loop client (received bytes ∷ rs) =
    let rest = child_loop client rs in
    let str_len = length bytes in
    if str_len == 0 then closed client ∷ [] else written client (take str_len (buffer bytes)) ∷ rest

unfoldable pub child_process_work : ℕ → ℕ → List Read → List Event
child_process_work serv_sock client rs = closed serv_sock ∷ child_loop client rs

-- What `fork` returns in the parent: an error, or a new process.
pub data Fork : Type 0 where
  fork_error : Fork
  forked : Fork

-- `fork_workproc`: the events of the parent, and those of each child in a list of its own.
unfoldable pub fork_workproc : ℕ → List (Accept × Fork) → List Event × List (List Event)
fork_workproc serv_sock [] = ([], [])
fork_workproc serv_sock ((refused, f) ∷ cs) = fork_workproc serv_sock cs
fork_workproc serv_sock ((incoming client rs, fork_error) ∷ cs) =
    let (es, children) = fork_workproc serv_sock cs in (closed client ∷ es, children)
fork_workproc serv_sock ((incoming client rs, forked) ∷ cs) =
    let (es, children) = fork_workproc serv_sock cs in
    (closed client ∷ es, child_process_work serv_sock client rs ∷ children)

unfoldable pub server_main : ℕ → Setup → List Accept → Exit (List Event)
server_main argc s cs = opened 2 argc s (accept_loop cs)

unfoldable pub forking_main :
    (argc serv_sock : ℕ) → Setup → List (Accept × Fork) → Exit (List Event × List (List Event))
forking_main argc serv_sock s cs = opened 2 argc s (fork_workproc serv_sock cs)
