-- ===== src/Sockets/Start.antt =====
-- The start of the servers.
use collection_of_mini_proje.Prelude.{ℕ, ◌≤◌, ◌≡◌, false, ltb, arith}
use collection_of_mini_proje.Sockets.{running, all_done, opened}

pub opened_lem :
    {A : Type 0} (needed argc : ℕ) (run : A)
    → needed ≤ argc
    → opened needed argc all_done run ≡ running run
unfolding opened
opened_lem needed argc run h = let given : ltb argc needed ≡ false = ground arith in rw given
