-- ===== src/Udp/Examples.antt =====
-- A word sent to and fro, and a file of two words.
use collection_of_mini_proje.Prelude.{◌≡◌, true, some, [], ◌∷◌, arith}
use collection_of_mini_proje.Sockets.{zeros, running, waiting, quit, out_of_bounds}
use collection_of_mini_proje.Sockets
use collection_of_mini_proje.Sockets.Buffer.{length-zeros}
use collection_of_mini_proje.Udp.{printed, replied, sent, server_main, client_main}
use collection_of_mini_proje.Udp.Echo.{datagrams, server_main-client_main}
use collection_of_mini_proje.Udp.News
use collection_of_mini_proje.Udp.News.{receivers-senders, receivers_bind}

server_main-client_main_example :
    (server_main 2 true true (datagrams 9 ((104 ∷ 105 ∷ []) ∷ []))
      ≡ running (printed (104 ∷ 105 ∷ []) ∷ replied 9 (104 ∷ 105 ∷ []) ∷ [], waiting))
    × (client_main 3 true ((104 ∷ 105 ∷ []) ∷ []) (some (104 ∷ 105 ∷ []) ∷ []) (zeros 128)
        ≡ running (sent (104 ∷ 105 ∷ []) ∷ printed (104 ∷ 105 ∷ []) ∷ [], waiting))
server_main-client_main_example =
    server_main-client_main 3 9 ((104 ∷ 105 ∷ []) ∷ []) (zeros 128) (omega arith)
      ((omega arith, omega arith), omega arith, tt)
      ((λ e. absurd (omega arith), (λ e. absurd (omega arith), tt)), tt) (length-zeros 128)

receivers-senders_example :
    (News.multicast_main 3 true ((110 ∷ []) ∷ (119 ∷ []) ∷ [])
      ≡ running (Sockets.sent (110 ∷ []) ∷ Sockets.sent (119 ∷ []) ∷ [], quit))
    × (News.group_main 3 (some 0) (some (110 ∷ []) ∷ some (119 ∷ []) ∷ [])
        ≡ running (Sockets.printed (110 ∷ []) ∷ Sockets.printed (119 ∷ []) ∷ [], waiting))
    × (News.broadcast_main 3 true ((110 ∷ []) ∷ (119 ∷ []) ∷ [])
        ≡ running (Sockets.sent (110 ∷ []) ∷ Sockets.sent (119 ∷ []) ∷ [], quit))
    × (News.receiver_main 3 (some 0) (some (110 ∷ []) ∷ some (119 ∷ []) ∷ [])
        ≡ running (Sockets.printed (110 ∷ []) ∷ Sockets.printed (119 ∷ []) ∷ [], waiting))
receivers-senders_example =
    receivers-senders 3 ((110 ∷ []) ∷ (119 ∷ []) ∷ []) (omega arith)
      ((omega arith, tt), omega arith, ((omega arith, tt), omega arith, tt))
