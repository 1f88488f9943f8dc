-- ===== src/MultiThreads/Select/Idle.antt =====
-- The select server before its first client.
use collection_of_mini_proje.Prelude.{
  ℕ, ◌≡◌, ◌<◌, ◌⊎◌, inl, inr, refl, false, List, [], ◌∷◌, ◌==◌, length, arith, Bool-cases,
}
use collection_of_mini_proje.MultiThreads.Select.{
  Round, Watch, handle, for_loop, select_loop, watch, select_workproc,
}

-- What `select` promises while only the server's socket is watched: the number of descriptors in
-- the set that it returns, which are among those watched.
abbrev pub Watched : ℕ → List Round → Type 0
Watched serv_sock [] = Unit
Watched serv_sock (r ∷ rs) =
    (r.fd_num ≡ length r.cpy_reads)
    × ((r.cpy_reads ≡ []) ⊎ (r.cpy_reads ≡ serv_sock ∷ []))
    × Watched serv_sock rs

for_loop-idle :
    (serv_sock : ℕ) (r : Round) (w : Watch)
    → 0 < serv_sock
    → r.fd_num ≡ length r.cpy_reads
    → (r.cpy_reads ≡ []) ⊎ (r.cpy_reads ≡ serv_sock ∷ [])
    → for_loop serv_sock r r.fd_num 0 w ≡ (w, [])
unfolding for_loop handle
for_loop-idle serv_sock r w pos n (inl e) = rw (n, e, for_loop)
for_loop-idle serv_sock r w pos n (inr e) =
    let other : (0 == serv_sock) ≡ false = ground arith in
    rw (n, e, for_loop) (rw (e, other, handle) refl)

select_loop-idle :
    (serv_sock : ℕ) (w : Watch) (rs : List Round)
    → 0 < serv_sock
    → Watched serv_sock rs
    → select_loop serv_sock rs w ≡ (w, [])
unfolding select_loop
select_loop-idle serv_sock w [] pos h = refl
select_loop-idle serv_sock w (r ∷ rs) pos (n, e, h) = elim (Bool-cases r.select_failed) [
  | inl bad ↦ rw bad
  | inr good ↦
      rw (for_loop-idle serv_sock r w pos n e, select_loop-idle serv_sock w rs pos h) (rw good)
]

-- The server never accepts a client: whatever becomes ready on its socket, no call of `select`
-- leads to an `accept4`, and nothing changes. Its loop runs over the descriptors below the number
-- of ready ones, which is at most one, and so never reaches its own socket.
pub select_workproc-idle :
    (serv_sock : ℕ) (buf : List ℕ) (rs : List Round)
    → 0 < serv_sock
    → Watched serv_sock rs
    → select_workproc serv_sock buf rs ≡ (watch serv_sock buf, [])
unfolding select_workproc
select_workproc-idle serv_sock buf rs pos h =
    select_loop-idle serv_sock (watch serv_sock buf) rs pos h
