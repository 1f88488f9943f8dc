-- ===== src/MultiThreads.antt =====
-- 网络编程入门/MultiThreads/src/server.cxx: four ways to serve several clients, of which `main` takes
-- the last: a process for each client, `select`, `epoll`, and a thread for each client.
pub mod Select
pub mod Indexed
pub mod Pthread
pub mod Examples
use collection_of_mini_proje.Prelude.{ℕ, some, List}
use collection_of_mini_proje.Sockets.{Read, Setup, Exit, opened}
use collection_of_mini_proje.EchoServer
use collection_of_mini_proje.EchoServer.{Accept, Fork, Event}
use Pthread.{Machine, begin}

-- The same code as in 网络编程入门/TCPServerDemoMultiProcess/src/server.cxx.
unfoldable pub child_process_work : ℕ → ℕ → List Read → List Event
child_process_work = EchoServer.child_process_work

unfoldable pub fork_workproc : ℕ → List (Accept × Fork) → List Event × List (List Event)
fork_workproc = EchoServer.fork_workproc

-- `main`, up to the first `accept4` of `pthread_workproc`.
unfoldable pub threads_main : (argc : ℕ) → Setup → Exit Machine
threads_main argc s = opened 2 argc s (begin (some 0))
