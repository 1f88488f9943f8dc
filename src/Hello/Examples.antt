-- ===== src/Hello/Examples.antt =====
-- The message of the server, and a part of it.
use collection_of_mini_proje.Prelude.{◌≡◌, refl, true, some, [], ◌∷◌, ◌++◌, arith}
use collection_of_mini_proje.Sockets.{
  zeros, received, all_done, running, printed, quit, out_of_bounds, opened, c_string,
}
use collection_of_mini_proje.Libevent.{codes}
use collection_of_mini_proje.Hello.{
  stored_at, greet, hello_client, hello_server, hello_client-reads,
}

hello_client-reads_example :
    (hello_client 3 true true
        (received (codes "hello world" ++ (0 ∷ [])))
        (codes "..........., friends" ++ (0 ∷ []))
      ≡ running (printed (codes "hello world") ∷ [], quit))
    × (hello_client 3 true true
          (received (codes "hello world"))
          (codes "..........., friends" ++ (0 ∷ []))
        ≡ running (printed (codes "hello world, friends") ∷ [], quit))
unfolding c_string
hello_client-reads_example =
    hello_client-reads 3 (codes "hello world") (codes "..........., friends" ++ (0 ∷ []))
      (omega arith) (omega arith)

-- The address of a client does not fit into `client_sock`.
hello_server_overflow : hello_server 2 all_done (some (zeros 16)) ≡ running ([], out_of_bounds)
unfolding hello_server opened greet stored_at zeros
hello_server_overflow = refl
