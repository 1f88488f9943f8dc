-- ===== src/Redis/Commands.antt =====
-- publisher.cxx: the commands that the program sends.
use collection_of_mini_proje.Prelude.{
  ℕ, zero, suc, ◌≡◌, refl, sym, ◌∙◌, Option, none, some, List, [], ◌∷◌, ◌++◌, ◌==◌, Bool-cases,
  Option-cases, append_assoc, append-nil, inl, inr, if◌then◌else◌,
}
use collection_of_mini_proje.Redis.{
  Text, Base, Context, Call, event_base_new, sem_init, Answers, Client, commanded,
}
use collection_of_mini_proje.Redis.Contexts.{commanded-++}
use collection_of_mini_proje.Redis.Publisher.{
  new_publisher, init, prepared, established, attempt, connect, publish, publish_loop, main,
}

-- One command `n` times.
abbrev pub copies : ℕ → Option Context × List Text → List (Option Context × List Text)
copies zero c = []
copies (suc n) c = c ∷ copies n c

-- What a program with this context sends.
abbrev pub published : ℕ → List Text → Option Context → List (Option Context × List Text)
published rounds words none = []
published rounds words (some c) = copies rounds (some c, words)

-- The context over which the program can publish: there is one if libevent makes an event base,
-- `sem_init` returns zero, and hiredis returns a context that has no error then.
abbrev pub ready : Option Base → (semaphore : ℕ) → Option Context → Option Context
ready none semaphore o = none
ready (some b) semaphore none = none
ready (some b) semaphore (some c) =
    if semaphore == 0 then (if c.err == 0 then some c else none) else none

-- The calls before `connect`.
abbrev pub initial : List Call
initial = event_base_new ∷ sem_init ∷ []

module _ (a : Answers) where
  publish_loop_lem :
      (n : ℕ) (verb channel message : Text) (s : Client)
      → commanded (publish_loop a n verb channel message s).calls
        ≡ commanded s.calls ++ copies n (s.redis_context, verb ∷ channel ∷ message ∷ [])
  unfolding publish_loop publish commanded
  publish_loop_lem zero verb channel message s = sym (append-nil (commanded s.calls))
  publish_loop_lem (suc n) verb channel message s =
      publish_loop_lem n verb channel message (publish a verb channel message s).0
      ∙ simp (commanded-++, append_assoc)

  -- After any number of rounds, the program has sent one command for each, all with its three words
  -- over the one context that hiredis returned, if there was an event base, the semaphore was made
  -- and the context is not null and had no error when `connect` read it; and else no command.
  pub main_lem :
      (rounds : ℕ) (verb channel message : Text)
      → commanded (main a rounds verb channel message).calls
        ≡ published rounds
            (verb ∷ channel ∷ message ∷ [])
            (ready (a.event_base []) (a.semaphore (event_base_new ∷ [])) (a.context initial))
  unfolding main init prepared new_publisher connect attempt established commanded
  main_lem rounds verb channel message = elim (Option-cases (a.event_base [])) [
    | inl e ↦ rw e refl
    | inr (b, e) ↦ elim (Bool-cases (a.semaphore (event_base_new ∷ []) == 0)) [
      | inr bad ↦ elim (Option-cases (a.context initial)) [
        | inl null ↦ rw (e, null, bad) refl
        | inr (c, got) ↦ rw (e, got, bad) refl
      ]
      | inl good ↦ elim (Option-cases (a.context initial)) [
        | inl null ↦ rw (e, null, good) refl
        | inr (c, got) ↦ elim (Bool-cases (c.err == 0)) [
          | inr bad ↦ rw (e, got, bad, good) refl
          | inl fine ↦ rw (e, got, fine, good) (publish_loop_lem rounds verb channel message _)
        ]
      ]
    ]
  ]
