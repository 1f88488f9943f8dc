-- ===== src/EchoClient/Exchange.antt =====
-- The echo client with a server that sends back each word.
use collection_of_mini_proje.Prelude.{
  ℕ, ◌≡◌, ◌≢◌, ◌<◌, refl, ap, Bool, true, false, List, [], ◌∷◌, append-nil, ◌∙◌, length, ltb,
  if◌then◌else◌, arith, Bool-cases, inl, inr,
}
use collection_of_mini_proje.Sockets.{
  Read, received, running, Output, sent, printed, Ending, quit, waiting, Run, emit,
}
use collection_of_mini_proje.Sockets.Buffer.{NonZero, extracted, terminated}
use collection_of_mini_proje.EchoServer.{
  Event, written, overrun, closed, displayed, over_read, buff_size,
}
use collection_of_mini_proje.EchoServer.Sessions.{
  NonEmpty, AreMessages, echoed, conversation, served,
}
use collection_of_mini_proje.RadixTree.Key.{key_eq}
use collection_of_mini_proje.EchoClient.{is_quit, typed, exchange, client_loop, client_main}

-- Words that a user can type: bytes that are not zero, fewer than the buffer's, and not the word
-- that ends the program.
pub record IsWord (w : List ℕ) : Type 0 where
  pub non_empty : w ≢ []
  pub non_zero : NonZero w
  pub short : length w < buff_size
  pub stays : is_quit w ≡ false

abbrev pub AreWords : List (List ℕ) → Type 0
AreWords [] = Unit
AreWords (w ∷ ws) = IsWord w × AreWords ws

-- What is typed: the words, and then the end, if the client ends.
abbrev pub typed_words : Bool → List (List ℕ) → List (List ℕ)
typed_words true [] = (b'q' ∷ []) ∷ []
typed_words false [] = []
typed_words ended (w ∷ ws) = w ∷ typed_words ended ws

-- What a client reads of the server's writes, each by one call.
abbrev pub answers : List Event → List Read
answers [] = []
answers (written c bytes ∷ es) = received bytes ∷ answers es
answers (overrun c ∷ es) = answers es
answers (displayed s ∷ es) = answers es
answers (over_read c ∷ es) = answers es
answers (closed c ∷ es) = answers es

-- Each word is sent, and then printed as the answer.
abbrev pub talk : List (List ℕ) → List Output
talk [] = []
talk (w ∷ ws) = sent w ∷ printed w ∷ talk ws

abbrev pub ending : Bool → Ending
ending true = quit
ending false = waiting

pub AreWords-NonEmpty : (ws : List (List ℕ)) → AreWords ws → NonEmpty ws
AreWords-NonEmpty [] h = tt
AreWords-NonEmpty (w ∷ ws) h = (h.0.non_empty, AreWords-NonEmpty ws h.1)

pub AreWords-AreMessages : (ws : List (List ℕ)) → AreWords ws → AreMessages ws
AreWords-AreMessages [] h = tt
AreWords-AreMessages (w ∷ ws) h =
    ((h.0.non_empty, h.0.non_zero, omega (arith, h.0.short)), AreWords-AreMessages ws h.1)

pub served_one :
    (socket : ℕ) (ended : Bool) (ws : List (List ℕ))
    → served (record { socket = socket; messages = ws; ended = ended } ∷ [])
      ≡ (conversation socket ended ws).0
served_one socket ended ws = elim (Bool-cases (conversation socket ended ws).1) [
  | inl done ↦ rw done (append-nil (conversation socket ended ws).0)
  | inr stays ↦ rw stays
]

typed_lem :
    (w buf : List ℕ) (next : List ℕ → List ℕ → Run)
    → NonZero w
    → length w < length buf
    → (buf' : List ℕ) × (length buf' ≡ length buf)
      × (typed w buf next ≡ (if is_quit w then ([], quit) else next w buf'))
unfolding typed
typed_lem w buf next h short = let (buf', e, s, n) = extracted w buf h short in (buf', n, rw (e, s))

exchange_lem :
    (m buf bytes : List ℕ) (next : List ℕ → Run)
    → NonZero bytes
    → length bytes < length buf
    → (buf' : List ℕ) × (length buf' ≡ length buf)
      × (exchange m buf (received bytes) next ≡ emit (sent m) (emit (printed bytes) (next buf')))
unfolding exchange
exchange_lem m buf bytes next h short =
    let (buf', e, s, n) = terminated bytes buf h short in (buf', n, rw (e, s))

quits :
    (buf : List ℕ)
    → 1 < length buf
    → typed (b'q' ∷ []) buf (λ m buf'. emit (sent m) ([], waiting)) ≡ ([], quit)
unfolding is_quit key_eq
quits buf h =
    let (b1, n1, e1) =
      typed_lem (b'q' ∷ []) buf (λ m buf'. emit (sent m) ([], waiting)) (omega arith, tt) h in
    e1

-- A client that reads back each word by one call.
abbrev pub replies : List (List ℕ) → List Read
replies [] = []
replies (w ∷ ws) = received w ∷ replies ws

client_loop-replies :
    (ended : Bool) (ws : List (List ℕ)) (buf : List ℕ)
    → AreWords ws
    → length buf ≡ buff_size
    → client_loop (typed_words ended ws) (replies ws) buf ≡ (talk ws, ending ended)
unfolding client_loop
client_loop-replies true [] buf h n = quits buf (omega (arith, n))
client_loop-replies false [] buf h n = refl
client_loop-replies ended (w ∷ ws) buf h n =
    let rest = λ (b : List ℕ). client_loop (typed_words ended ws) (replies ws) b in
    let next = λ (m b : List ℕ). exchange m b (received w) rest in
    let (b1, n1, e1) = typed_lem w buf next h.0.non_zero (omega (arith, n, h.0.short)) in
    let (b2, n2, e2) = exchange_lem w b1 w rest h.0.non_zero (omega (arith, n, n1, h.0.short)) in
    e1 ∙ rw h.0.stays (e2 ∙ rw (client_loop-replies ended ws b2 h.1 (n2 ∙ n1 ∙ n)))

pub answers-echoed :
    (socket : ℕ) (ended : Bool) (ws : List (List ℕ)) → answers (echoed socket ended ws) ≡ replies ws
answers-echoed socket true [] = refl
answers-echoed socket false [] = refl
answers-echoed socket ended (w ∷ ws) = ap (λ rs. received w ∷ rs) (answers-echoed socket ended ws)

pub answers-conversation :
    (socket : ℕ) (ended : Bool) (ws : List (List ℕ))
    → AreWords ws
    → answers (conversation socket ended ws).0 ≡ replies ws
answers-conversation socket true [] h = refl
answers-conversation socket false [] h = refl
answers-conversation socket ended (w ∷ ws) h =
    let short : ltb (length w) buff_size ≡ true = ground (arith, h.0.short) in
    rw short (ap (λ rs. received w ∷ rs) (answers-conversation socket ended ws h.1))

-- The whole client, with a server that replies each word.
pub client_main-replies :
    (argc : ℕ) (ended : Bool) (ws : List (List ℕ)) (buf : List ℕ)
    → 2 < argc
    → AreWords ws
    → length buf ≡ buff_size
    → client_main argc true true (typed_words ended ws) (replies ws) buf
      ≡ running (talk ws, ending ended)
unfolding client_main
client_main-replies argc ended ws buf more h n =
    let given : ltb argc 3 ≡ false = ground arith in
    rw (given, client_loop-replies ended ws buf h n)
