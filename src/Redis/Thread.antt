-- ===== src/Redis/Thread.antt =====
-- redis_publisher.cxx and redis_subscriber.cxx: `connect` in the client's thread beside
-- `event_proc` in the thread that it starts.
use collection_of_mini_proje.Prelude.{
  ℕ, suc, ◌≡◌, refl, Option, List, [], ◌∷◌, ◌++◌, ◌⊎◌, inl, inr, append_assoc,
}
use collection_of_mini_proje.Redis.{
  Base, Context, Call, sem_post, attach, start_thread, set_connect_callback,
  set_disconnect_callback, Answers, Client,
}
use collection_of_mini_proje.Redis.Publisher
use collection_of_mini_proje.Redis.Subscriber

-- `event_proc`: before it runs, in `sem_wait`, and in `event_base_dispatch`.
pub data Phase : Type 0 where
  absent : Phase
  waiting : Phase
  dispatching : Phase

-- The calls that the client's thread has still to make, those that both threads share the effect
-- of, and the semaphore.
pub record Machine : Type 0 where
  pub todo : List Call
  pub made : List Call
  pub posts : ℕ
  pub phase : Phase

unfoldable pub started : Call → Phase → Phase
started start_thread phase = waiting
started c phase = phase

unfoldable pub posted : Call → ℕ → ℕ
posted sem_post n = suc n
posted c n = n

-- One step of either thread, in any order. `sem_wait` blocks at zero.
pub data Step : Machine → Machine → Type 0 where
  client :
      {c : Call} {cs made : List Call} {n : ℕ} {phase : Phase}
      → Step
          (record { todo = c ∷ cs; made = made; posts = n; phase = phase })
          (record {
            todo = cs;
            made = made ++ (c ∷ []);
            posts = posted c n;
            phase = started c phase;
          })
  woken :
      {todo made : List Call} {n : ℕ}
      → Step
          (record { todo = todo; made = made; posts = suc n; phase = waiting })
          (record { todo = todo; made = made; posts = n; phase = dispatching })

-- The calls of `connect` behind its tests.
abbrev pub setup : Context → Option Base → List Call
setup c b =
    attach c b ∷ start_thread ∷ set_connect_callback c ∷ set_disconnect_callback c ∷ sem_post ∷ []

pub data Reach (c : Context) (b : Option Base) : Machine → Type 0 where
  begun : Reach c b (record { todo = setup c b; made = []; posts = 0; phase = absent })
  more : {m m' : Machine} → Reach c b m → Step m m' → Reach c b m'

-- The reachable machines: the client is at one of its calls; or it has made all, and the other
-- thread waits or dispatches.
data Shape (c : Context) (b : Option Base) : Machine → Type 0 where
  at_attach : Shape c b (record { todo = setup c b; made = []; posts = 0; phase = absent })
  at_start : Shape c b (record {
    todo = start_thread ∷ set_connect_callback c ∷ set_disconnect_callback c ∷ sem_post ∷ [];
    made = attach c b ∷ [];
    posts = 0;
    phase = absent;
  })
  at_connect : Shape c b (record {
    todo = set_connect_callback c ∷ set_disconnect_callback c ∷ sem_post ∷ [];
    made = attach c b ∷ start_thread ∷ [];
    posts = 0;
    phase = waiting;
  })
  at_disconnect : Shape c b (record {
    todo = set_disconnect_callback c ∷ sem_post ∷ [];
    made = attach c b ∷ start_thread ∷ set_connect_callback c ∷ [];
    posts = 0;
    phase = waiting;
  })
  at_post : Shape c b (record {
    todo = sem_post ∷ [];
    made = attach c b ∷ start_thread ∷ set_connect_callback c ∷ set_disconnect_callback c ∷ [];
    posts = 0;
    phase = waiting;
  })
  at_end : Shape c b (record { todo = []; made = setup c b; posts = 1; phase = waiting })
  at_dispatch : Shape c b (record { todo = []; made = setup c b; posts = 0; phase = dispatching })

Step-Shape :
    {c : Context} {b : Option Base} {m m' : Machine} → Shape c b m → Step m m' → Shape c b m'
unfolding started posted
Step-Shape at_attach client = at_start
Step-Shape at_start client = at_connect
Step-Shape at_connect client = at_disconnect
Step-Shape at_disconnect client = at_post
Step-Shape at_post client = at_end
Step-Shape at_end woken = at_dispatch
Step-Shape at_dispatch st = elim st [ ]

Reach-Shape : {c : Context} {b : Option Base} {m : Machine} → Reach c b m → Shape c b m
Reach-Shape begun = at_attach
Reach-Shape (more r s) = Step-Shape (Reach-Shape r) s

publisher_calls :
    (a : Answers) (s : Client) (c : Context)
    → (Publisher.established a s c).calls ≡ s.calls ++ setup c s.event_base
unfolding Publisher.established
publisher_calls a s c = simp append_assoc

subscriber_calls :
    (a : Answers) (s : Client) (c : Context)
    → (Subscriber.established a s c).calls ≡ s.calls ++ setup c s.event_base
unfolding Subscriber.established
subscriber_calls a s c = simp append_assoc

Shape-dispatching :
    {c : Context} {b : Option Base} {m : Machine}
    → Shape c b m
    → m.phase ≡ dispatching
    → m.made ≡ setup c b
Shape-dispatching at_attach e = cc
Shape-dispatching at_start e = cc
Shape-dispatching at_connect e = cc
Shape-dispatching at_disconnect e = cc
Shape-dispatching at_post e = cc
Shape-dispatching at_end e = cc
Shape-dispatching at_dispatch e = refl

-- In every interleaving of `connect` with the thread that it starts, of either class, the thread
-- dispatches events only after `connect` has made all its calls: the context is attached and both
-- callbacks are set.
pub Reach-dispatching :
    (a : Answers) (s : Client) (c : Context) (m : Machine)
    → Reach c s.event_base m
    → m.phase ≡ dispatching
    → ((Publisher.established a s c).calls ≡ s.calls ++ m.made)
      × ((Subscriber.established a s c).calls ≡ s.calls ++ m.made)
Reach-dispatching a s c m r e =
    rw (Shape-dispatching (Reach-Shape r) e) (publisher_calls a s c, subscriber_calls a s c)

Shape-progress :
    {c : Context} {b : Option Base} {m : Machine}
    → Shape c b m
    → (m.phase ≡ dispatching) ⊎ ((m' : Machine) × Step m m')
Shape-progress at_attach = inr (_, client)
Shape-progress at_start = inr (_, client)
Shape-progress at_connect = inr (_, client)
Shape-progress at_disconnect = inr (_, client)
Shape-progress at_post = inr (_, client)
Shape-progress at_end = inr (_, woken)
Shape-progress at_dispatch = inl refl

-- No interleaving blocks before the thread dispatches: there is a next step, or it dispatches.
pub Reach-progress :
    (c : Context) (b : Option Base) (m : Machine)
    → Reach c b m
    → (m.phase ≡ dispatching) ⊎ ((m' : Machine) × Step m m')
Reach-progress c b m r = Shape-progress (Reach-Shape r)
