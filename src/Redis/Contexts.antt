-- ===== src/Redis/Contexts.antt =====
-- The contexts of hiredis that the two classes get, use and give back.
use collection_of_mini_proje.Prelude.{
  ◌≡◌, refl, ap, ◌∙◌, Bool, Bool-cases, inl, inr, true, false, Option, none, some, List, [], ◌∷◌,
  ◌++◌, ◌==◌, if◌then◌else◌, append-nil, append_assoc,
}
use collection_of_mini_proje.Redis.{
  Context, Call, event_base_new, sem_init, sem_destroy, sem_post, async_connect, attach,
  start_thread, set_connect_callback, set_disconnect_callback, async_disconnect, async_free,
  command, Answers, Client, record_call, freed, commanded,
}
use collection_of_mini_proje.Redis.Publisher
use collection_of_mini_proje.Redis.Subscriber

freed-++ :
    (quiet : Context → Bool) (xs ys : List Call)
    → freed quiet (xs ++ ys) ≡ freed quiet xs ++ freed quiet ys
unfolding freed
freed-++ quiet [] ys = refl
freed-++ quiet (async_free c ∷ xs) ys = ap (λ x. c ∷ x) (freed-++ quiet xs ys)
freed-++ quiet (async_disconnect c ∷ xs) ys = elim (Bool-cases (quiet c)) [
  | inl idle ↦ rw (idle, freed-++ quiet xs ys)
  | inr busy ↦ rw (busy, freed-++ quiet xs ys)
]
freed-++ quiet (event_base_new ∷ xs) ys = freed-++ quiet xs ys
freed-++ quiet (sem_init ∷ xs) ys = freed-++ quiet xs ys
freed-++ quiet (sem_destroy ∷ xs) ys = freed-++ quiet xs ys
freed-++ quiet (sem_post ∷ xs) ys = freed-++ quiet xs ys
freed-++ quiet (async_connect ∷ xs) ys = freed-++ quiet xs ys
freed-++ quiet (attach c b ∷ xs) ys = freed-++ quiet xs ys
freed-++ quiet (start_thread ∷ xs) ys = freed-++ quiet xs ys
freed-++ quiet (set_connect_callback c ∷ xs) ys = freed-++ quiet xs ys
freed-++ quiet (set_disconnect_callback c ∷ xs) ys = freed-++ quiet xs ys
freed-++ quiet (command c ws ∷ xs) ys = freed-++ quiet xs ys

pub commanded-++ : (xs ys : List Call) → commanded (xs ++ ys) ≡ commanded xs ++ commanded ys
unfolding commanded
commanded-++ [] ys = refl
commanded-++ (command c ws ∷ xs) ys = ap (λ x. (c, ws) ∷ x) (commanded-++ xs ys)
commanded-++ (event_base_new ∷ xs) ys = commanded-++ xs ys
commanded-++ (sem_init ∷ xs) ys = commanded-++ xs ys
commanded-++ (sem_destroy ∷ xs) ys = commanded-++ xs ys
commanded-++ (sem_post ∷ xs) ys = commanded-++ xs ys
commanded-++ (async_connect ∷ xs) ys = commanded-++ xs ys
commanded-++ (attach c b ∷ xs) ys = commanded-++ xs ys
commanded-++ (start_thread ∷ xs) ys = commanded-++ xs ys
commanded-++ (set_connect_callback c ∷ xs) ys = commanded-++ xs ys
commanded-++ (set_disconnect_callback c ∷ xs) ys = commanded-++ xs ys
commanded-++ (async_disconnect c ∷ xs) ys = commanded-++ xs ys
commanded-++ (async_free c ∷ xs) ys = commanded-++ xs ys

-- What `disconnect` frees of a context: nothing of a null pointer; else the context, and twice, if no
-- reply is pending, by `redisAsyncDisconnect` and by `redisAsyncFree`.
abbrev pub released : (quiet : Context → Bool) → Option Context → List Context
released quiet none = []
released quiet (some c) = if quiet c then c ∷ c ∷ [] else c ∷ []

abbrev tested : Bool → Client → Client → Client × Bool
tested b x y = if b then (x, true) else (y, false)

freed_connecting :
    (quiet : Context → Bool) (xs : List Call)
    → freed quiet (xs ++ (async_connect ∷ [])) ≡ freed quiet xs
unfolding freed
freed_connecting quiet xs = freed-++ quiet xs (async_connect ∷ []) ∙ append-nil (freed quiet xs)

freed_disconnected :
    (quiet : Context → Bool) (xs : List Call) (c : Context)
    → freed quiet ((xs ++ (async_disconnect c ∷ [])) ++ (async_free c ∷ []))
      ≡ freed quiet xs ++ released quiet (some c)
unfolding freed
freed_disconnected quiet xs c = elim (Bool-cases (quiet c)) [
  | inl idle ↦ simp (freed-++ quiet, append_assoc, idle)
  | inr busy ↦ simp (freed-++ quiet, append_assoc, busy)
]

module _ (a : Answers) (quiet : Context → Bool) where
  subscriber_after_test :
      (s : Client) (c : Context) (b : Bool)
      → s.redis_context ≡ some c
      → (freed quiet (Subscriber.disconnect (tested b (Subscriber.established a s c) s).0).0.calls
          ≡ freed quiet s.calls ++ released quiet (some c))
        × ((Subscriber.disconnect (tested b (Subscriber.established a s c) s).0).0.redis_context
            ≡ none)
  unfolding Subscriber.disconnect Subscriber.established freed
  subscriber_after_test s c true e =
      let same : freed quiet (Subscriber.established a s c).calls ≡ freed quiet s.calls =
        simp (freed-++ quiet, append-nil) in
      rw e (
        freed_disconnected quiet (Subscriber.established a s c).calls c
            ∙ ap (λ xs. xs ++ released quiet (some c)) same,
        refl,
      )
  subscriber_after_test s c false e = rw e (freed_disconnected quiet s.calls c, refl)

  subscriber_attempt :
      (s : Client) (o : Option Context)
      → (freed quiet (Subscriber.disconnect (Subscriber.attempt a s o).0).0.calls
          ≡ freed quiet s.calls ++ released quiet o)
        × ((Subscriber.disconnect (Subscriber.attempt a s o).0).0.redis_context ≡ none)
  unfolding Subscriber.attempt
  subscriber_attempt s none = unfold Subscriber.disconnect in (simp append-nil, refl)
  subscriber_attempt s (some c) =
      subscriber_after_test (record s { redis_context = some c }) c (c.err == 0) refl

  -- The subscriber: whatever `connect` gets and returns, `disconnect` after it frees the context
  -- that `connect` got, if it released quiet one, once and no other, and leaves a null pointer.
  pub subscriber_disconnect-connect :
      (s : Client)
      → (freed quiet (Subscriber.disconnect (Subscriber.connect a s).0).0.calls
          ≡ freed quiet s.calls ++ released quiet (a.context s.calls))
        × ((Subscriber.disconnect (Subscriber.connect a s).0).0.redis_context ≡ none)
  unfolding Subscriber.connect
  subscriber_disconnect-connect s =
      let (e, n) = subscriber_attempt (record_call s async_connect) (a.context s.calls) in
      (e ∙ ap (λ x. x ++ released quiet (a.context s.calls)) (freed_connecting quiet s.calls), n)
