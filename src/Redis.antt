-- ===== src/Redis.antt =====
-- The Redis publisher and subscriber: what both classes share. hiredis, libevent, the semaphore and
-- the thread are not part of the repository: a class's calls of them are a list, in order, and what
-- they return is a parameter that can depend on all earlier calls.
pub mod Publisher
pub mod Subscriber
pub mod Contexts
pub mod Commands
pub mod Callback
pub mod Thread
pub mod Examples
use collection_of_mini_proje.Prelude.{
  ℕ, Bool, Option, none, some, List, [], ◌∷◌, ◌++◌, ◌==◌, if◌then◌else◌,
}

abbrev pub Text : Type 0
Text = List ℕ

abbrev pub Base : Type 0
Base = ℕ

-- `redisAsyncContext`: its address, and its member `err` as `redisAsyncConnect` returns it, which is
-- where the classes read it. Later errors go to the callbacks, which print them.
pub record Context : Type 0 where
  pub address : ℕ
  pub err : ℕ

-- A context that is `none` is a null pointer.
pub data Call : Type 0 where
  event_base_new : Call
  sem_init : Call
  sem_destroy : Call
  sem_post : Call
  async_connect : Call
  attach : Context → Option Base → Call
  start_thread : Call
  set_connect_callback : Context → Call
  set_disconnect_callback : Context → Call
  async_disconnect : Context → Call
  async_free : Context → Call
  command : Option Context → List Text → Call

-- What the calls return: null or an object, and zero for success.
pub record Answers : Type 0 where
  pub event_base : List Call → Option Base
  pub semaphore : List Call → ℕ
  pub context : List Call → Option Context
  pub accepted : List Call → Bool

-- The members, and the calls so far.
pub record Client : Type 0 where
  pub event_base : Option Base
  pub redis_context : Option Context
  pub calls : List Call

abbrev pub record_call : Client → Call → Client
record_call s c = record s { calls = s.calls ++ (c ∷ []) }

-- The contexts that are freed, in order. `redisAsyncFree` frees its context, and so does
-- `redisAsyncDisconnect`, at once, if no reply is pending: `quiet` tells whether none is.
unfoldable pub freed : (quiet : Context → Bool) → List Call → List Context
freed quiet [] = []
freed quiet (async_disconnect c ∷ cs) =
    let rest = freed quiet cs in if quiet c then c ∷ rest else rest
freed quiet (async_free c ∷ cs) = c ∷ freed quiet cs
freed quiet (x ∷ cs) = freed quiet cs

-- The commands: their contexts, where `none` is a null pointer, and their words.
unfoldable pub commanded : List Call → List (Option Context × List Text)
commanded [] = []
commanded (command c ws ∷ cs) = (c, ws) ∷ commanded cs
commanded (x ∷ cs) = commanded cs
