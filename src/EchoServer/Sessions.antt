-- ===== src/EchoServer/Sessions.antt =====
-- Which clients the two echo servers answer, and with what.
use collection_of_mini_proje.Prelude.{
  ℕ, zero, suc, ◌≡◌, ◌≢◌, refl, Bool, true, false, none, some, List, [], ◌∷◌, ◌++◌, ◌==◌, length,
  ◌<◌, ◌≤◌, ltb, drop, append-nil, if◌then◌else◌, arith, Bool-cases, inl, inr,
}
use collection_of_mini_proje.Sockets.{Read, received, running, all_done, zeros, overlay, c_string}
use collection_of_mini_proje.Sockets.Buffer.{
  NonZero, take-append, zeroed, c_string-NonZero, length-zeros,
}
use collection_of_mini_proje.Sockets.Start.{opened_lem}
use collection_of_mini_proje.EchoServer.{
  Accept, incoming, Event, written, closed, displayed, over_read, display, buff_size, echo_loop,
  accept_loop, child_loop, child_process_work, Fork, forked, fork_workproc, server_main,
  forking_main,
}

-- A client sends messages; `ended` tells whether it then closes its connection.
pub record Client : Type 0 where
  pub socket : ℕ
  pub messages : List (List ℕ)
  pub ended : Bool

abbrev pub reads : Bool → List (List ℕ) → List Read
reads true [] = received [] ∷ []
reads false [] = []
reads ended (b ∷ bs) = received b ∷ reads ended bs

-- What a client of the forking server should get: its messages, and the end of the connection.
abbrev pub echoed : ℕ → Bool → List (List ℕ) → List Event
echoed socket true [] = closed socket ∷ []
echoed socket false [] = []
echoed socket ended (b ∷ bs) = written socket b ∷ echoed socket ended bs

-- No message is empty.
abbrev pub NonEmpty : List (List ℕ) → Type 0
NonEmpty [] = Unit
NonEmpty (b ∷ bs) = (b ≢ []) × NonEmpty bs

abbrev pub AllNonEmpty : List Client → Type 0
AllNonEmpty [] = Unit
AllNonEmpty (k ∷ ks) = NonEmpty k.messages × AllNonEmpty ks

some_bytes : (b : List ℕ) → b ≢ [] → (length b == 0) ≡ false
some_bytes [] h = absurd (h refl)
some_bytes (x ∷ b) h = ground arith

-- What one read can return: some bytes, at most as many as the buffer has, none of them zero.
abbrev pub IsMessage : List ℕ → Type 0
IsMessage b = (b ≢ []) × NonZero b × (length b ≤ buff_size)

abbrev pub AreMessages : List (List ℕ) → Type 0
AreMessages [] = Unit
AreMessages (b ∷ bs) = IsMessage b × AreMessages bs

abbrev pub AllMessages : List Client → Type 0
AllMessages [] = Unit
AllMessages (k ∷ ks) = AreMessages k.messages × AllMessages ks

-- What the iterative server does for a client, and whether it has ended: it prints each message and
-- sends it back, up to the first one that fills the buffer, which it cannot print.
abbrev pub conversation : ℕ → Bool → List (List ℕ) → List Event × Bool
conversation socket true [] = (closed socket ∷ [], true)
conversation socket false [] = ([], false)
conversation socket ended (b ∷ bs) =
    let (es, done) = conversation socket ended bs in
    if ltb (length b) buff_size
    then (displayed b ∷ written socket b ∷ es, done)
    else (over_read socket ∷ [], false)

drop_all : (n : ℕ) (xs : List ℕ) → length xs ≤ n → drop n xs ≡ []
drop_all zero [] h = refl
drop_all (suc n) [] h = refl
drop_all zero (x ∷ xs) h = absurd (omega arith)
drop_all (suc n) (x ∷ xs) h = drop_all n xs (omega arith)

-- The string in the buffer after a read.
c_string-message :
    (b : List ℕ)
    → IsMessage b
    → c_string (overlay b (zeros buff_size)) ≡ (if ltb (length b) buff_size then some b else none)
c_string-message b (_, h, fits) = elim (Bool-cases (ltb (length b) buff_size)) [
  | inl short ↦ rw (short, zeroed b buff_size h (ground arith))
  | inr long ↦
      let full : drop (length b) (zeros buff_size) ≡ [] =
        drop_all (length b) (zeros buff_size) (ground (arith, length-zeros buff_size)) in
      rw (long, full, append-nil b) (c_string-NonZero b h)
]

display_if :
    (socket : ℕ) (short : Bool) (b : List ℕ) (es : List Event) (done : Bool)
    → display socket (if short then some b else none) (es, done)
      ≡ (if short then (displayed b ∷ es, done) else (over_read socket ∷ [], false))
display_if socket true b es done = refl
display_if socket false b es done = refl

echo_loop-reads :
    (socket : ℕ) (ended : Bool) (bs : List (List ℕ))
    → AreMessages bs
    → echo_loop socket (reads ended bs) ≡ conversation socket ended bs
unfolding echo_loop
echo_loop-reads socket true [] h = refl
echo_loop-reads socket false [] h = refl
echo_loop-reads socket ended (b ∷ bs) h =
    rw
      (some_bytes b h.0.0, take-append, echo_loop-reads socket ended bs h.1, c_string-message b h.0)
      (display_if socket (ltb (length b) buff_size) b
        (written socket b ∷ (conversation socket ended bs).0) (conversation socket ended bs).1)

pub child_loop-reads :
    (socket : ℕ) (ended : Bool) (bs : List (List ℕ))
    → NonEmpty bs
    → child_loop socket (reads ended bs) ≡ echoed socket ended bs
unfolding child_loop
child_loop-reads socket true [] h = refl
child_loop-reads socket false [] h = refl
child_loop-reads socket ended (b ∷ bs) h =
    rw (some_bytes b h.0, take-append, child_loop-reads socket ended bs h.1)

abbrev pub accepts : List Client → List Accept
accepts [] = []
accepts (k ∷ ks) = incoming k.socket (reads k.ended k.messages) ∷ accepts ks

-- One client after the other, up to the first whose conversation does not end.
abbrev pub served : List Client → List Event
served [] = []
served (k ∷ ks) =
    let (es, done) = conversation k.socket k.ended k.messages in
    let rest = served ks in if done then es ++ rest else es

pub accept_loop-served : (ks : List Client) → AllMessages ks → accept_loop (accepts ks) ≡ served ks
unfolding accept_loop
accept_loop-served [] h = refl
accept_loop-served (k ∷ ks) h =
    rw (echo_loop-reads k.socket k.ended k.messages h.0, accept_loop-served ks h.1)

abbrev pub forks : List Client → List (Accept × Fork)
forks [] = []
forks (k ∷ ks) = (incoming k.socket (reads k.ended k.messages), forked) ∷ forks ks

abbrev pub closes : List Client → List Event
closes [] = []
closes (k ∷ ks) = closed k.socket ∷ closes ks

abbrev pub children : ℕ → List Client → List (List Event)
children serv_sock [] = []
children serv_sock (k ∷ ks) =
    (closed serv_sock ∷ echoed k.socket k.ended k.messages) ∷ children serv_sock ks

fork_workproc-children :
    (serv_sock : ℕ) (ks : List Client)
    → AllNonEmpty ks
    → fork_workproc serv_sock (forks ks) ≡ (closes ks, children serv_sock ks)
unfolding fork_workproc child_process_work
fork_workproc-children serv_sock [] h = refl
fork_workproc-children serv_sock (k ∷ ks) h =
    rw (child_loop-reads k.socket k.ended k.messages h.0, fork_workproc-children serv_sock ks h.1)

-- If a port is given, the set-up succeeds and no read fails, and the messages are what reads return:
-- some bytes, none of them zero, at most 64. The iterative server prints each message of a client,
-- sends it back, and closes the connection, one client after the other, up to the first client that
-- stays connected; those behind it get nothing. At a message of 64 bytes, which fills its buffer,
-- the print reads behind the end of the buffer.
pub server_main-served :
    (argc : ℕ) (ks : List Client)
    → 1 < argc
    → AllMessages ks
    → server_main argc all_done (accepts ks) ≡ running (served ks)
unfolding server_main
server_main-served argc ks more h =
    rw (accept_loop-served ks h) (opened_lem 2 argc (served ks) (omega arith))

-- If a port is given, the set-up succeeds, no message is empty, no read fails and every fork
-- succeeds, the forking server has a child for each client that closes the server's socket and
-- sends that client its messages, also behind clients that stay connected; the parent closes its
-- copy of each client's socket.
pub forking_main-children :
    (argc serv_sock : ℕ) (ks : List Client)
    → 1 < argc
    → AllNonEmpty ks
    → forking_main argc serv_sock all_done (forks ks) ≡ running (closes ks, children serv_sock ks)
unfolding forking_main
forking_main-children argc serv_sock ks more h =
    rw (fork_workproc-children serv_sock ks h)
      (opened_lem 2 argc (closes ks, children serv_sock ks) (omega arith))
