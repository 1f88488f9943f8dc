-- ===== src/MultiThreads/Pthread/Sharing.antt =====
-- Which sockets the threads serve.
use collection_of_mini_proje.Prelude.{
  ℕ, zero, suc, ap, subst, ◌+◌, ◌≡◌, refl, none, some, Bool, true, false, ◌||◌, List, [], ◌∷◌, ◌==◌,
  length, if◌then◌else◌, arith,
}
use collection_of_mini_proje.Sockets.{Read, received, failed}
use collection_of_mini_proje.MultiThreads.Pthread.{
  Socket, Event, written, overrun, closed, handle_client, Machine, begin, accept_step, create_step,
  Step, accepts, creates, starts, Reach, begun, more,
}

abbrev same_socket : Socket → Socket → Bool
same_socket none none = true
same_socket none (some y) = false
same_socket (some x) none = false
same_socket (some x) (some y) = x == y

same_socket_refl : (x : Socket) → same_socket x x ≡ true
same_socket_refl none = refl
same_socket_refl (some x) = ground arith

abbrev pub is_in : Socket → List Socket → Bool
is_in fd [] = false
is_in fd (x ∷ xs) = same_socket fd x || is_in fd xs

abbrev pub AllIn : List Socket → List Socket → Type 0
AllIn [] ys = Unit
AllIn (x ∷ xs) ys = (is_in x ys ≡ true) × AllIn xs ys

-- Whether a thread is still to be made.
abbrev pub asked_for : Bool → ℕ
asked_for true = 1
asked_for false = 0

-- One thread for each call of `accept4`, but for those that were not made or not asked for yet; each thread serves a
-- result of `accept4`, and the variable is one, once there is one.
record Threads (m : Machine) : Type 0 where
  count : length m.serving + m.created + m.unmade + asked_for m.creating ≡ length m.accepted
  served : AllIn m.serving m.accepted
  current : (is_in m.client_sock m.accepted || (length m.accepted == 0)) ≡ true

AllIn-cons : (x : Socket) (xs ys : List Socket) → AllIn xs ys → AllIn xs (x ∷ ys)
AllIn-cons x [] ys h = tt
AllIn-cons x (y ∷ xs) ys h = (ground (arith, h.0), AllIn-cons x xs ys h.1)

Step-Threads : {m m' : Machine} → Step m m' → Threads m → Threads m'
unfolding accept_step create_step
Step-Threads {m} (accepts fd idle e) t =
    let same : asked_for m.creating ≡ 0 = ap asked_for idle in
    rw e (record {
      count = omega (arith, t.count, same);
      served = AllIn-cons fd m.serving m.accepted t.served;
      current = rw (same_socket_refl fd);
    })
Step-Threads {m} (creates true busy e) t =
    let one : asked_for m.creating ≡ 1 = ap asked_for busy in
    rw e (record { count = omega (arith, t.count, one); served = t.served; current = t.current })
Step-Threads {m} (creates false busy e) t =
    let one : asked_for m.creating ≡ 1 = ap asked_for busy in
    rw e (record { count = omega (arith, t.count, one); served = t.served; current = t.current })
Step-Threads {m} (starts n e e') t =
    let some_client : (length m.accepted == 0) ≡ false = ground (arith, t.count) in
    let here : is_in m.client_sock m.accepted ≡ true = ground (arith, t.current) in
    rw e'
      (record { count = omega (arith, t.count); served = (here, t.served); current = t.current })

Reach-Threads : {c : Socket} {m : Machine} → Reach (begin c) m → Threads m
Reach-Threads begun = record { count = refl; served = tt; current = refl }
Reach-Threads (more r s) = Step-Threads s (Reach-Threads r)

-- In every reachable state there is a thread for each call of `accept4`, but for those that
-- `pthread_create` did not make and the one that it is still to make, and each thread that has
-- started serves a result of `accept4`, which is -1 where the call failed.
Reach-threads :
    {c : Socket} {m : Machine}
    → Reach (begin c) m
    → (length m.serving + m.created + m.unmade + asked_for m.creating ≡ length m.accepted)
      × AllIn m.serving m.accepted
Reach-threads r = let t = Reach-Threads r in (t.count, t.served)

-- `n` threads that serve one socket, before others.
abbrev pub sharing : ℕ → Socket → List Socket → List Socket
sharing zero fd others = others
sharing (suc n) fd others = sharing n fd (fd ∷ others)

-- All threads that are left start.
started :
    {m0 m : Machine} (n : ℕ)
    → m.created ≡ n
    → Reach m0 m
    → Reach m0 (record m { created = 0; serving = sharing n m.client_sock m.serving })
started {m0} {m} zero e r =
    let same : m ≡ record m { created = 0 } = ap (λ k. record m { created = k }) e in
    subst (Reach m0) same r
started {m} (suc n) e r = started n refl (more r (starts n e refl))

-- From every reachable state in which the next call of the accepting thread is `accept4`, whatever
-- socket it returns, the steps can come so that all threads that have not started yet, those of
-- earlier clients, serve this one, as does its own; no thread is left for the earlier clients.
pub Reach-shared :
    {c : Socket} {m : Machine} (fd : Socket)
    → Reach (begin c) m
    → m.creating ≡ false
    → Reach (begin c) (record m {
      client_sock = fd;
      creating = false;
      created = 0;
      serving = sharing (suc m.created) fd m.serving;
      accepted = fd ∷ m.accepted;
    })
unfolding accept_step create_step
Reach-shared {m} fd r idle =
    started (suc m.created) refl (more (more r (accepts fd idle refl)) (creates true refl refl))

-- How often a thread closes a socket, and how often its reads return no bytes.
unfoldable pub closes : Socket → List Event → ℕ
closes c [] = 0
closes c (closed fd ∷ es) = (if same_socket fd c then 1 else 0) + closes c es
closes c (written fd bytes ∷ es) = closes c es
closes c (overrun fd ∷ es) = closes c es

abbrev pub ends : List Read → ℕ
ends [] = 0
ends (failed ∷ rs) = ends rs
ends (received [] ∷ rs) = suc (ends rs)
ends (received (b ∷ bytes) ∷ rs) = ends rs

-- A thread closes its socket at every read that returns no bytes, and not once: it reads on after
-- the end of the stream.
pub closes-handle_client : (c : Socket) (rs : List Read) → closes c (handle_client c rs) ≡ ends rs
unfolding closes handle_client
closes-handle_client c [] = refl
closes-handle_client c (failed ∷ rs) = closes-handle_client c rs
closes-handle_client c (received [] ∷ rs) =
    rw (same_socket_refl c) (omega (arith, closes-handle_client c rs))
closes-handle_client c (received (b ∷ bytes) ∷ rs) =
    let more : (length (b ∷ bytes) == 0) ≡ false = ground arith in
    rw more (closes-handle_client c rs)
