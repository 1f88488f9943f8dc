-- ===== src/Signals.antt =====
-- `read_childproc` of 网络编程入门/TCPServerDemoMultiProcess/src/server.cxx, the handler of SIGCHLD, with
-- the processes that the server forks. MultiThreads/src/server.cxx and EPOLL/src/server.cxx install
-- the same handler.
pub mod Zombies
pub mod Examples
use collection_of_mini_proje.Prelude.{ℕ, suc, ◌+◌, ◌≡◌, Bool, true, false}

-- The call of `waitpid` for any child, with WNOHANG: the number of children that have ended and have
-- not been waited for, before and after it.
pub record Waiting : Type 0 where
  pub waitpid : ℕ → ℕ
  pub none_ended : waitpid 0 ≡ 0
  pub one_ended : (n : ℕ) → waitpid (suc n) ≡ n

unfoldable pub read_childproc : Waiting → ℕ → ℕ
read_childproc w ended = w.waitpid ended

-- Children that run and children that have ended; whether the signal is pending, and whether its
-- handler runs, which blocks it. The other counts are of the past: children that were forked,
-- runs of the handler, and children that ended while the signal was pending already.
pub record Processes : Type 0 where
  pub running : ℕ
  pub ended : ℕ
  pub pending : Bool
  pub handling : Bool
  pub forked : ℕ
  pub handled : ℕ
  pub merged : ℕ

abbrev pub no_children : Processes
no_children = record {
  running = 0;
  ended = 0;
  pending = false;
  handling = false;
  forked = 0;
  handled = 0;
  merged = 0;
}

-- The steps come in any order: a child is forked or ends, the signal is delivered, the handler
-- runs and returns. A signal that is pending is not queued a second time.
pub data Step (w : Waiting) : Processes → Processes → Type 0 where
  forks :
      {s t : Processes}
      → t ≡ record s { running = suc s.running; forked = suc s.forked }
      → Step w s t
  ends_first :
      {s t : Processes} (n : ℕ)
      → s.running ≡ suc n
      → s.pending ≡ false
      → t ≡ record s { running = n; ended = suc s.ended; pending = true }
      → Step w s t
  ends_merged :
      {s t : Processes} (n : ℕ)
      → s.running ≡ suc n
      → s.pending ≡ true
      → t ≡ record s { running = n; ended = suc s.ended; merged = suc s.merged }
      → Step w s t
  delivered :
      {s t : Processes}
      → s.pending ≡ true
      → s.handling ≡ false
      → t ≡ record s { pending = false; handling = true }
      → Step w s t
  returns :
      {s t : Processes}
      → s.handling ≡ true
      → t ≡ record s { ended = read_childproc w s.ended; handling = false; handled = suc s.handled }
      → Step w s t

pub data Reach (w : Waiting) : Processes → Type 0 where
  begun : Reach w no_children
  more : {s t : Processes} → Reach w s → Step w s t → Reach w t
