-- ===== src/Hello.antt =====
-- 网络编程入门/socket/hello_server.cxx and hello_client.cxx: one message over one connection.
pub mod Examples
use collection_of_mini_proje.Prelude.{
  ℕ, ◌≡◌, ◌<◌, ◌∙◌, ◌==◌, refl, true, false, Bool, Option, none, some, List, [], ◌∷◌, ◌++◌, length,
  take, drop, ltb, leb, append_assoc, if◌then◌else◌, arith,
}
use collection_of_mini_proje.Sockets.{
  Read, received, failed, socket, connect, accept, read, Setup, Exit, usage, failed_at, running,
  opened, all_done, overlay, c_string, sent, printed, quit, out_of_bounds, Run, emit, in_bounds,
  in_string, zeros,
}
use collection_of_mini_proje.Sockets.Buffer.{NonZero, c_string-append}
use collection_of_mini_proje.Libevent.{codes}

-- `char message[] = "hello world"`, with its terminator.
abbrev pub hello : List ℕ
hello = codes "hello world" ++ (0 ∷ [])

abbrev pub flat : {A : Type 0} → Exit (Exit A) → Exit A
flat usage = usage
flat (failed_at s) = failed_at s
flat (running e) = e

-- The bytes of an `int`, and of a `sockaddr_in`.
abbrev pub int_size : ℕ
int_size = 4

abbrev pub address_size : ℕ
address_size = 16

-- What the kernel stores in an object; `none` is a write out of bounds.
unfoldable pub stored_at : List ℕ → List ℕ → Option (List ℕ)
stored_at bytes object =
    if leb (length bytes) (length object) then some (overlay bytes object) else none

-- `accept`, with the address of the client, and what follows it. The address, of which there are at
-- most `client_addr_size` bytes, goes to `client_sock`, which is an `int`.
unfoldable pub greet : List ℕ → Run
greet address =
    in_bounds (stored_at (take address_size address) (zeros int_size))
      (λ client_sock. (sent hello ∷ [], quit))

-- `main` of the server, by the results of its calls; `none` is an error of `accept`.
unfoldable pub hello_server : ℕ → Setup → (accepted : Option (List ℕ)) → Exit Run
hello_server argc s accepted = flat (
    opened 2 argc s
      (elim accepted [ none ↦ failed_at accept | some address ↦ running (greet address) ]))

-- `main` of the client, which reads into a buffer that holds anything and prints the string there.
unfoldable pub hello_client : ℕ → (socket_done connect_done : Bool) → Read → List ℕ → Exit Run
hello_client argc false connect_done r message = if ltb argc 3 then usage else failed_at socket
hello_client argc true false r message = if ltb argc 3 then usage else failed_at connect
hello_client argc true true failed message = if ltb argc 3 then usage else failed_at read
hello_client argc true true (received bytes) message =
    if ltb argc 3
    then usage
    else running (in_string (c_string (overlay bytes message)) (λ s. emit (printed s) ([], quit)))

-- A string with more bytes before it, none of them zero.
c_string-before :
    (s buf : List ℕ) (next : List ℕ → Run)
    → NonZero s
    → in_string (c_string (s ++ buf)) next ≡ in_string (c_string buf) (λ t. next (s ++ t))
unfolding c_string
c_string-before [] buf next h = refl
c_string-before (c ∷ s) buf next h =
    let byte : (c == 0) ≡ false = ground (arith, h.0) in
    rw byte (pushed (c_string (s ++ buf)) ∙ c_string-before s buf (λ t. next (c ∷ t)) h.1)
  where
    pushed :
        (o : Option (List ℕ))
        → in_string (elim o [ none ↦ none | some t ↦ some (c ∷ t) ]) next
          ≡ in_string o (λ t. next (c ∷ t))
    pushed none = refl
    pushed (some t) = refl

-- If two arguments are given and its calls succeed, the client prints just the string of a message
-- that has its terminator, whatever its buffer held. But it stores no terminator: if the one call of
-- `read` returns bytes of which none is zero, such as a part of the message, it prints them and then
-- what its buffer, which was never initialised, held behind them, up to the first zero there, or
-- reads behind the end of the buffer if there is none.
pub hello_client-reads :
    (argc : ℕ) (s message : List ℕ)
    → 2 < argc
    → NonZero s
    → (hello_client argc true true (received (s ++ (0 ∷ []))) message
        ≡ running (printed s ∷ [], quit))
      × (hello_client argc true true (received s) message
          ≡ running
              (in_string (c_string (drop (length s) message)) (λ t. (printed (s ++ t) ∷ [], quit))))
unfolding hello_client
hello_client-reads argc s message more h =
    let given : ltb argc 3 ≡ false = ground arith in
    (
      rw (given, append_assoc, c_string-append s (drop (length (s ++ (0 ∷ []))) message) h),
      rw (given, c_string-before s (drop (length s) message) (λ t. emit (printed t) ([], quit)) h),
    )
