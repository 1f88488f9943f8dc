-- ===== src/Redis/Subscriber.antt =====
-- redis_subscriber.cxx.
use collection_of_mini_proje.Prelude.{
  ℕ, Bool, true, false, Option, none, some, List, [], ◌∷◌, ◌==◌, length, if◌then◌else◌,
}
use collection_of_mini_proje.Redis.{
  Text, Base, Context, event_base_new, sem_init, sem_destroy, sem_post, async_connect, attach,
  start_thread, set_connect_callback, set_disconnect_callback, async_disconnect, async_free,
  command, Answers, Client, record_call,
}

-- The notifier of the members is the receiver of what `command_callback` returns.
unfoldable pub new_subscriber : Client
new_subscriber = record { event_base = none; redis_context = none; calls = [] }

unfoldable pub uninit : Client → Client × Bool
uninit s = (record (record_call s sem_destroy) { event_base = none }, true)

unfoldable pub disconnect : Client → Client × Bool
disconnect s = elim s.redis_context [
  | none ↦ (s, true)
  | some c ↦ (
    record (record_call (record_call s (async_disconnect c)) (async_free c)) {
      redis_context = none;
    },
    true,
  )
]

module _ (a : Answers) where
  -- `init` with what `event_base_new` returned.
  unfoldable pub prepared : Client → Option Base → Client × Bool
  prepared s none = (record s { event_base = none }, false)
  prepared s (some b) =
      let s' = record s { event_base = some b } in
      (record_call s' sem_init, a.semaphore s'.calls == 0)

  unfoldable pub init : Client → Client × Bool
  init s = prepared (record_call s event_base_new) (a.event_base s.calls)

  -- The part of `connect` behind its tests.
  unfoldable pub established : Client → Context → Client
  established s c =
      let s1 = record_call s (attach c s.event_base) in
      let s2 = record_call s1 start_thread in
      let s3 = record_call s2 (set_connect_callback c) in
      let s4 = record_call s3 (set_disconnect_callback c) in record_call s4 sem_post

  -- `connect` with what `redisAsyncConnect` returned.
  unfoldable pub attempt : Client → Option Context → Client × Bool
  attempt s none = (record s { redis_context = none }, false)
  attempt s (some c) =
      let s' = record s { redis_context = some c } in
      if c.err == 0 then (established s' c, true) else (s', false)

  unfoldable pub connect : Client → Client × Bool
  connect s = attempt (record_call s async_connect) (a.context s.calls)

  unfoldable pub subscribe : Text → Text → Client → Client × Bool
  subscribe verb channel_name s =
      (record_call s (command s.redis_context (verb ∷ channel_name ∷ [])), a.accepted s.calls)

  -- `main` of subscriber.cxx, up to its endless loop.
  unfoldable pub subscriber_main : Text → Text → Client
  subscriber_main verb channel_name =
      let (s, done) = init new_subscriber in
      let (s', connected) = connect s in
      let (s'', accepted) = subscribe verb channel_name s' in
      if done then (if connected then s'' else s') else s

-- `redisReply`: an array, by the members `str` of its elements, which are null for an element that
-- has no string; or another type.
pub data Reply : Type 0 where
  array : List (Option Text) → Reply
  scalar : Option Text → Reply

-- What `command_callback` does: nothing, a call of the notifier with its three arguments, or the
-- output of a null string, which is undefined.
pub data Delivery : Type 0 where
  ignored : Delivery
  notified : Text → Text → ℕ → Delivery
  fault : Delivery

-- `str` is what the output of a string needs.
unfoldable pub printed : Option Text → (Text → Delivery) → Delivery
printed none next = fault
printed (some str) next = next str

unfoldable pub command_callback : Option Reply → (privdata : Bool) → Delivery
command_callback none privdata = ignored
command_callback (some (scalar str)) privdata = ignored
command_callback (some (array (x ∷ y ∷ z ∷ []))) privdata =
    let output = printed x (λ a.
      printed y (λ channel. printed z (λ message. notified channel message (length message)))) in
    if privdata then output else ignored
command_callback (some (array es)) privdata = ignored
