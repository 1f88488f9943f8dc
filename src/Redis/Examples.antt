-- ===== src/Redis/Examples.antt =====
-- A Redis server that accepts everything, and a run of `connect` beside its thread.
use collection_of_mini_proje.Prelude.{◌≡◌, refl, true, Option, List, none, some, [], ◌∷◌, ◌↔◌}
use collection_of_mini_proje.Redis.{Text, Context, Answers, Client, commanded}
use collection_of_mini_proje.Redis.Publisher
use collection_of_mini_proje.Redis.Subscriber
use collection_of_mini_proje.Redis.Subscriber.{array, notified, fault, command_callback}
use collection_of_mini_proje.Redis.Commands.{main_lem}
use collection_of_mini_proje.Redis.Callback.{
  Message, Null, command_callback-Message, command_callback-Null,
}
use collection_of_mini_proje.Redis.Thread.{
  Machine, client, woken, Reach, begun, more, waiting, dispatching, setup, started, posted,
  Reach-dispatching,
}

abbrev server : Context
server = record { address = 1; err = 0 }

abbrev accepting : Answers
accepting = record {
  event_base = λ cs. some 7;
  semaphore = λ cs. 0;
  context = λ cs. some server;
  accepted = λ cs. true;
}

abbrev idle : Client
idle = record { event_base = some 7; redis_context = none; calls = [] }

abbrev publication : Option Context × List Text
publication = (some server, (1 ∷ []) ∷ (2 ∷ []) ∷ (3 ∷ []) ∷ [])

main_lem_example :
    commanded (Publisher.main accepting 2 (1 ∷ []) (2 ∷ []) (3 ∷ [])).calls
    ≡ publication ∷ publication ∷ []
main_lem_example = main_lem accepting 2 (1 ∷ []) (2 ∷ []) (3 ∷ [])

abbrev ended : Machine
ended = record { todo = []; made = setup server (some 7); posts = 1; phase = waiting }

abbrev running : Machine
running = record { todo = []; made = setup server (some 7); posts = 0; phase = dispatching }

ended-Reach : Reach server (some 7) ended
unfolding started posted
ended-Reach = more (more (more (more (more begun client) client) client) client) client

Reach-dispatching_example :
    ((Publisher.established accepting idle server).calls ≡ setup server (some 7))
    × ((Subscriber.established accepting idle server).calls ≡ setup server (some 7))
Reach-dispatching_example =
    Reach-dispatching accepting idle server running (more ended-Reach woken) refl

command_callback-Message_example :
    (command_callback (some (array (some (1 ∷ []) ∷ some (2 ∷ []) ∷ some (3 ∷ 4 ∷ []) ∷ []))) true
      ≡ notified (2 ∷ []) (3 ∷ 4 ∷ []) 2)
    ↔ Message
        (some (array (some (1 ∷ []) ∷ some (2 ∷ []) ∷ some (3 ∷ 4 ∷ []) ∷ [])))
        true
        (2 ∷ [])
        (3 ∷ 4 ∷ [])
        2
command_callback-Message_example =
    command_callback-Message (some (array (some (1 ∷ []) ∷ some (2 ∷ []) ∷ some (3 ∷ 4 ∷ []) ∷ [])))
      true (2 ∷ []) (3 ∷ 4 ∷ []) 2

command_callback-Null_example :
    (command_callback (some (array (some (1 ∷ []) ∷ some (2 ∷ []) ∷ none ∷ []))) true ≡ fault)
    ↔ Null (some (array (some (1 ∷ []) ∷ some (2 ∷ []) ∷ none ∷ []))) true
command_callback-Null_example =
    command_callback-Null (some (array (some (1 ∷ []) ∷ some (2 ∷ []) ∷ none ∷ []))) true
