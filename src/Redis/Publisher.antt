-- ===== src/Redis/Publisher.antt =====
-- redis_publisher.cxx, and the program publisher.cxx.
use collection_of_mini_proje.Prelude.{
  ℕ, zero, suc, Bool, true, false, Option, none, some, [], ◌∷◌, ◌==◌, if◌then◌else◌,
}
use collection_of_mini_proje.Redis.{
  Text, Base, Context, event_base_new, sem_init, sem_destroy, sem_post, async_connect, attach,
  start_thread, set_connect_callback, set_disconnect_callback, async_disconnect, async_free,
  command, Answers, Client, record_call,
}

-- `CXXRedisPublisher::CXXRedisPublisher`
unfoldable pub new_publisher : Client
new_publisher = record { event_base = none; redis_context = none; calls = [] }

unfoldable pub uninit : Client → Client × Bool
uninit s = (record (record_call s sem_destroy) { event_base = none }, true)

unfoldable pub disconnect : Client → Client × Bool
disconnect s = elim s.redis_context [
  | none ↦ (s, true)
  | some c ↦ (
    record (record_call (record_call s (async_disconnect c)) (async_free c)) {
      redis_context = none;
    },
    true,
  )
]

module _ (a : Answers) where
  -- `init` with what `event_base_new` returned.
  unfoldable pub prepared : Client → Option Base → Client × Bool
  prepared s none = (record s { event_base = none }, false)
  prepared s (some b) =
      let s' = record s { event_base = some b } in
      (record_call s' sem_init, a.semaphore s'.calls == 0)

  unfoldable pub init : Client → Client × Bool
  init s = prepared (record_call s event_base_new) (a.event_base s.calls)

  -- The part of `connect` behind its tests.
  unfoldable pub established : Client → Context → Client
  established s c =
      let s1 = record_call s (attach c s.event_base) in
      let s2 = record_call s1 start_thread in
      let s3 = record_call s2 (set_connect_callback c) in
      let s4 = record_call s3 (set_disconnect_callback c) in record_call s4 sem_post

  -- `connect` with what `redisAsyncConnect` returned.
  unfoldable pub attempt : Client → Option Context → Client × Bool
  attempt s none = (record s { redis_context = none }, false)
  attempt s (some c) =
      let s' = record s { redis_context = some c } in
      if c.err == 0 then (established s' c, true) else (s', false)

  unfoldable pub connect : Client → Client × Bool
  connect s = attempt (record_call s async_connect) (a.context s.calls)

  unfoldable pub publish : Text → Text → Text → Client → Client × Bool
  publish verb channel_name message s = (
    record_call s (command s.redis_context (verb ∷ channel_name ∷ message ∷ [])),
    a.accepted s.calls,
  )

  -- The first rounds of the endless loop of `main`.
  unfoldable pub publish_loop : ℕ → Text → Text → Text → Client → Client
  publish_loop zero verb channel_name message s = s
  publish_loop (suc left) verb channel_name message s =
      publish_loop left verb channel_name message (publish verb channel_name message s).0

  -- `main` until it has done `rounds` rounds, or has returned.
  unfoldable pub main : ℕ → Text → Text → Text → Client
  main rounds verb channel_name message =
      let (s, done) = init new_publisher in
      let (s', connected) = connect s in
      if done
      then (if connected then publish_loop rounds verb channel_name message s' else s')
      else s
