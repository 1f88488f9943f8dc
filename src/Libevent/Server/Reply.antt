-- ===== src/Libevent/Server/Reply.antt =====
-- The buffers of the server's reply, and the errors of its start.
use collection_of_mini_proje.Prelude.{
  ℕ, suc, ◌+◌, ◌≡◌, ◌<◌, ◌≤◌, refl, Bool, true, false, none, some, List, [], ◌∷◌, ◌++◌, length,
  drop, ltb, if◌then◌else◌, arith, length-append, Bool-cases, inl, inr,
}
use collection_of_mini_proje.Sockets.{
  zeros, overlay, put, c_string, sent, printed, quit, out_of_bounds,
}
use collection_of_mini_proje.Sockets.Buffer.{
  NonZero, terminated, c_string-append, put_full, length-drop, length-zeros,
}
use collection_of_mini_proje.Libevent.{closed_of}
use collection_of_mini_proje.Libevent.Server.{
  tcp_server_init, server_main, msg_size, greeting, strcat, socket_read_cb,
}

NonZero-append : (s t : List ℕ) → NonZero s → NonZero t → NonZero (s ++ t)
NonZero-append [] t h k = k
NonZero-append (c ∷ s) t h k = (h.0, NonZero-append s t h.1 k)

greeting-NonZero : NonZero greeting
greeting-NonZero = omega arith

strcat-fits :
    (p s buf : List ℕ)
    → NonZero p
    → NonZero s
    → length p + length s < length buf
    → (buf' : List ℕ) × (strcat p s buf ≡ some buf') × (c_string buf' ≡ some (p ++ s))
unfolding strcat
strcat-fits p s buf h k short =
    let fits : ltb (length (p ++ s)) (length buf) ≡ true = ground (arith, length-append p s) in
    let rest = drop (suc (length (p ++ s))) buf in
    ((p ++ s) ++ (0 ∷ rest), rw fits, c_string-append (p ++ s) rest (NonZero-append p s h k))

strcat-overflows : (p s buf : List ℕ) → length buf ≤ length p + length s → strcat p s buf ≡ none
unfolding strcat
strcat-overflows p s buf long =
    let full : ltb (length (p ++ s)) (length buf) ≡ false = ground (arith, length-append p s) in
    rw full

reply_size : length (overlay greeting (zeros msg_size)) ≡ msg_size
reply_size = omega (
  arith,
  length-append greeting (drop (length greeting) (zeros msg_size)),
  length-drop (length greeting) (zeros msg_size),
  length-zeros msg_size,
)

-- For bytes that are not zero, and a buffer of any contents, the callback prints the message and
-- sends it behind its greeting if the message has fewer than 4070 bytes. If it has more, it writes
-- out of the buffer of the reply; if it fills the buffer of 4096 bytes, out of that of the message.
pub socket_read_cb_lem :
    (bytes msg : List ℕ)
    → NonZero bytes
    → length bytes ≤ msg_size
    → length msg ≡ msg_size
    → socket_read_cb bytes msg ≡ (
        if ltb (length bytes) 4070
        then (printed bytes ∷ sent (greeting ++ bytes) ∷ [], quit)
        else if ltb (length bytes) msg_size
        then (printed bytes ∷ [], out_of_bounds)
        else ([], out_of_bounds))
unfolding socket_read_cb
socket_read_cb_lem bytes msg h fits n = elim (Bool-cases (ltb (length bytes) msg_size)) [
  | inl short ↦
      let (msg', e, s, _) = terminated bytes msg h (ground (arith, n)) in
      elim (Bool-cases (ltb (length bytes) 4070)) [
        | inl small ↦
            let (reply, e', s') =
              strcat-fits greeting bytes (overlay greeting (zeros msg_size)) greeting-NonZero h
                (ground (arith, reply_size)) in
            rw (small, e, s, e', s')
        | inr large ↦ rw (
          large,
          short,
          e,
          s,
          strcat-overflows greeting bytes (overlay greeting (zeros msg_size))
              (ground (arith, reply_size)),
        )
      ]
  | inr long ↦
      let large : ltb (length bytes) 4070 ≡ false = ground arith in
      let full : put (length bytes) 0 (overlay bytes msg) ≡ none =
        put_full bytes msg (ground (arith, n)) in
      rw (large, long, full)
]

-- The server reports an error only if `socket` fails: for every result of `bind` and `listen` it goes
-- on to dispatch events on its listener, also after it has closed it, once for each failure.
pub server_main_lem :
    (fd : ℕ) (bind_done listen_done : Bool)
    → ((server_main (some fd) bind_done listen_done).1 ≡ false)
      × (closed_of (server_main (some fd) bind_done listen_done).0
          ≡ (if bind_done then [] else fd ∷ []) ++ (if listen_done then [] else fd ∷ []))
      × ((server_main none bind_done listen_done).1 ≡ true)
unfolding server_main tcp_server_init closed_of
server_main_lem fd true true = (refl, refl, refl)
server_main_lem fd true false = (refl, refl, refl)
server_main_lem fd false true = (refl, refl, refl)
server_main_lem fd false false = (refl, refl, refl)
