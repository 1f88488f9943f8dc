-- ===== src/Libevent.antt =====
-- libevent_quickstart of Redis for Asynchronous Subscription and Publishing: a server and a client over libevent's
-- buffered events. libevent is not part of the repository; what its calls return is the input.
pub mod Server
pub mod Client
pub mod Examples
use Prim.Native.String.{String}
use Prim.Native.Char.{code}
use collection_of_mini_proje.Prelude.{
  ℕ, suc, ◌+◌, Bool, Option, none, some, List, [], ◌∷◌, ◌++◌, length, drop, ltb, if◌then◌else◌,
}

-- The bytes of a literal.
abbrev pub codes : String → List ℕ
codes String.[] = []
codes (String.◌∷◌ c s) = code c ∷ codes s

-- The calls on sockets and on buffered events.
pub data Call : Type 0 where
  made : (fd : ℕ) → Call
  reusable : (fd : ℕ) → Call
  nonblocking : (fd : ℕ) → Call
  closed : (fd : ℕ) → Call
  buffered : (fd : ℕ) → Call
  freed_buffer : Call
  freed_event : Call
  dispatched : (fd : ℕ) → Call

-- The message of an `event_cb`.
pub data Notice : Type 0 where
  closed_notice error_notice no_notice : Notice

-- `event & BEV_EVENT_EOF` and `event & BEV_EVENT_ERROR`
unfoldable pub notice_of : (eof error : Bool) → Notice
notice_of eof error = if eof then closed_notice else if error then error_notice else no_notice

-- The sockets that calls made, and those that they closed.
unfoldable pub made_of : List Call → List ℕ
made_of [] = []
made_of (made fd ∷ cs) = fd ∷ made_of cs
made_of (c ∷ cs) = made_of cs

unfoldable pub closed_of : List Call → List ℕ
closed_of [] = []
closed_of (closed fd ∷ cs) = fd ∷ closed_of cs
closed_of (c ∷ cs) = closed_of cs

abbrev pub got : Option ℕ → List ℕ
got none = []
got (some fd) = fd ∷ []
