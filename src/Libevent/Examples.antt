-- ===== src/Libevent/Examples.antt =====
-- A short message.
use collection_of_mini_proje.Prelude.{◌≡◌, ◌++◌, [], ◌∷◌, arith}
use collection_of_mini_proje.Sockets.{zeros, sent, printed, quit}
use collection_of_mini_proje.Sockets.Buffer.{length-zeros}
use collection_of_mini_proje.Libevent.Server.{greeting, socket_read_cb}
use collection_of_mini_proje.Libevent.Server.Reply.{socket_read_cb_lem}

socket_read_cb_lem_example :
    socket_read_cb (104 ∷ 105 ∷ []) (zeros 4096)
    ≡ (printed (104 ∷ 105 ∷ []) ∷ sent (greeting ++ (104 ∷ 105 ∷ [])) ∷ [], quit)
socket_read_cb_lem_example =
    socket_read_cb_lem (104 ∷ 105 ∷ []) (zeros 4096) (omega arith) (omega arith) (length-zeros 4096)
