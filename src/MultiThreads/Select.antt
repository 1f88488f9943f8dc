-- ===== src/MultiThreads/Select.antt =====
-- `select_workproc`. A set of descriptors that `select` returns is a list; the set of those that are
-- watched is a function.
pub mod Idle
use collection_of_mini_proje.Prelude.{
  ℕ, zero, suc, ◌+◌, Bool, true, false, ◌||◌, Option, none, some, List, [], ◌∷◌, ◌++◌, ◌==◌, length,
  take, ltb, if◌then◌else◌,
}
use collection_of_mini_proje.Sockets.{Read, received, failed, overlay}

-- What `select` returns: an error, or a number with the set; and what `accept4` and a `read` of each
-- descriptor return after it.
pub record Round : Type 0 where
  pub select_failed : Bool
  pub fd_num : ℕ
  pub cpy_reads : List ℕ
  pub accepted : Option ℕ
  pub read : ℕ → Read

pub record Watch : Type 0 where
  pub reads : ℕ → Bool
  pub fd_max : ℕ
  pub buf : List ℕ

-- `bad_set` is `FD_SET` of the descriptor -1; `overrun` a write of (size_t)-1 bytes.
pub data Event : Type 0 where
  connected : (fd : ℕ) → Event
  bad_set : Event
  written : (fd : ℕ) → List ℕ → Event
  overrun : (fd : ℕ) → Event
  closed : (fd : ℕ) → Event

-- `FD_ISSET`
abbrev pub is_set : ℕ → List ℕ → Bool
is_set i [] = false
is_set i (fd ∷ fds) = (i == fd) || is_set i fds

-- `FD_SET` and `FD_CLR`
abbrev pub assign : ℕ → Bool → (ℕ → Bool) → ℕ → Bool
assign i b reads j = if i == j then b else reads j

-- A new client.
unfoldable pub register : Option ℕ → Watch → Watch × List Event
register none w = (w, bad_set ∷ [])
register (some client_sock) w = (
  record w {
    reads = assign client_sock true w.reads;
    fd_max = if ltb w.fd_max client_sock then client_sock else w.fd_max;
  },
  connected client_sock ∷ [],
)

-- A read of the client at `i`.
unfoldable pub answer : ℕ → Read → Watch → Watch × List Event
answer i failed w = (w, overrun i ∷ [])
answer i (received bytes) w =
    let str_len = length bytes in
    let buf = overlay bytes w.buf in
    if str_len == 0
    then (record w { reads = assign i false w.reads }, closed i ∷ [])
    else (record w { buf = buf }, written i (take str_len buf) ∷ [])

unfoldable pub handle : ℕ → Round → ℕ → Watch → Watch × List Event
handle serv_sock r i w =
    if is_set i r.cpy_reads
    then (if i == serv_sock then register r.accepted w else answer i (r.read i) w)
    else (w, [])

-- `for (int i = 0; i < fd_num; i++)`, with `left` rounds to go.
unfoldable pub for_loop : ℕ → Round → (left i : ℕ) → Watch → Watch × List Event
for_loop serv_sock r zero i w = (w, [])
for_loop serv_sock r (suc left) i w =
    let (w', es) = handle serv_sock r i w in
    let (w'', fs) = for_loop serv_sock r left (i + 1) w' in (w'', es ++ fs)

unfoldable pub select_loop : ℕ → List Round → Watch → Watch × List Event
select_loop serv_sock [] w = (w, [])
select_loop serv_sock (r ∷ rs) w =
    let (w', es) = for_loop serv_sock r r.fd_num 0 w in
    let (w'', fs) = select_loop serv_sock rs w' in
    if r.select_failed then (w, []) else (w'', es ++ fs)

-- The sets before the loop.
unfoldable pub watch : ℕ → List ℕ → Watch
watch serv_sock buf = record {
  reads = assign serv_sock true (λ fd. false);
  fd_max = serv_sock;
  buf = buf;
}

unfoldable pub select_workproc : ℕ → List ℕ → List Round → Watch × List Event
select_workproc serv_sock buf rs = select_loop serv_sock rs (watch serv_sock buf)
