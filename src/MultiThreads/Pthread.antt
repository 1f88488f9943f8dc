-- ===== src/MultiThreads/Pthread.antt =====
-- `pthread_workproc` and `handle_client`. The new thread gets the address of `client_sock`, which the
-- accepting thread overwrites at its next `accept4`; the threads' steps come in any order.
pub mod Sharing
use collection_of_mini_proje.Prelude.{
  ℕ, suc, ◌≡◌, Option, refl, ap, Bool, true, false, ◌||◌, List, [], ◌∷◌, ◌==◌, length,
  if◌then◌else◌, arith,
}
use collection_of_mini_proje.Sockets.{Read, received, failed}

-- What `accept4` returns: a socket, or -1.
abbrev pub Socket : Type 0
Socket = Option ℕ

-- `overrun` is a write of (size_t)-1 bytes.
pub data Event : Type 0 where
  written : (fd : Socket) → List ℕ → Event
  overrun : (fd : Socket) → Event
  closed : (fd : Socket) → Event

-- `handle_client`, over what the reads return. The loop has no end.
unfoldable pub handle_client : Socket → List Read → List Event
handle_client client_sock [] = []
handle_client client_sock (failed ∷ rs) = overrun client_sock ∷ handle_client client_sock rs
handle_client client_sock (received bytes ∷ rs) =
    let rest = handle_client client_sock rs in
    if length bytes == 0 then closed client_sock ∷ rest else written client_sock bytes ∷ rest

-- The variable `client_sock`, whether `accept4` has returned and `pthread_create` is next, the number of threads that have not read their argument yet, the
-- sockets that the others serve, the number of threads that `pthread_create` did not make, and all
-- results of `accept4`, the last one first.
pub record Machine : Type 0 where
  pub client_sock : Socket
  pub creating : Bool
  pub created : ℕ
  pub serving : List Socket
  pub unmade : ℕ
  pub accepted : List Socket

abbrev pub begin : Socket → Machine
begin client_sock = record {
  client_sock = client_sock;
  creating = false;
  created = 0;
  serving = [];
  unmade = 0;
  accepted = [];
}

-- `accept4`, whose result is not tested.
unfoldable pub accept_step : Socket → Machine → Machine
accept_step fd m = record m { client_sock = fd; creating = true; accepted = fd ∷ m.accepted }

-- `pthread_create`, which makes a thread or fails: the result is not tested.
unfoldable pub create_step : (made : Bool) → Machine → Machine
create_step made m =
    let m' = record m { creating = false } in
    if made then record m' { created = suc m.created } else record m' { unmade = suc m.unmade }

-- The steps of the accepting thread, and the start of `handle_client` in another, which reads its
-- argument, the variable `client_sock`.
pub data Step : Machine → Machine → Type 0 where
  accepts : {m m' : Machine} (fd : Socket) → m.creating ≡ false → m' ≡ accept_step fd m → Step m m'
  creates : {m m' : Machine} (made : Bool) → m.creating ≡ true → m' ≡ create_step made m → Step m m'
  starts :
      {m m' : Machine} (n : ℕ)
      → m.created ≡ suc n
      → m' ≡ record m { created = n; serving = m.client_sock ∷ m.serving }
      → Step m m'

pub data Reach (m0 : Machine) : Machine → Type 0 where
  begun : Reach m0 m0
  more : {m m' : Machine} → Reach m0 m → Step m m' → Reach m0 m'
