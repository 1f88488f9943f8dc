-- ===== src/MemoryPool/Client.antt =====
-- MemoryPool.hpp: every sequence of calls by a client that gives back only what it holds.
use collection_of_mini_proje.Prelude.{
  ℕ, ◌<◌, ◌≡◌, ◌≢◌, inl, inr, Bool, true, false, ◌⊎◌, Bool-cases, some, List, arith, [], ◌∷◌,
}
use collection_of_mini_proje.MemoryPool.{
  Ptr, Sizes, Slot, Pool, init, allocate, construct, destroy, deallocate, release,
}
use collection_of_mini_proje.MemoryPool.Invariant.{mark, Apart, IsSized, IsNew, Within, IsValid}
use collection_of_mini_proje.MemoryPool.Allocate.{allocate-Allocated}
use collection_of_mini_proje.MemoryPool.Deallocate.{
  init-IsValid, construct-IsValid, destroy-IsValid, deallocate-IsValid,
}
use collection_of_mini_proje.MemoryPool.Release.{blocks, release-blocks}

-- One call; `live` tells the slots that the client holds.
pub data Step {ℓ} {T : Type ℓ} (z : Sizes) (os : ℕ → Ptr) (s : Pool T) (live : Ptr → Bool)
    : Pool T → (Ptr → Bool) → Type ℓ where
  allocated :
      {s' : Pool T} {p : Ptr}
      → allocate z os s ≡ some (s', p)
      → Step z os s live s' (mark live p true)
  constructed : (p : Ptr) (x : T) → live p ≡ true → Step z os s live (construct s p x) live
  destroyed : (p : Ptr) → live p ≡ true → Step z os s live (destroy s p) live
  deallocated : (p : Ptr) → live p ≡ true → Step z os s live (deallocate s p) (mark live p false)

pub data Reach {ℓ} {T : Type ℓ} (z : Sizes) (os : ℕ → Ptr) (m : Ptr → Slot T)
    : Pool T → (Ptr → Bool) → Type ℓ where
  start : Reach z os m (init m) (λ _. false)
  more :
      {s s' : Pool T} {live live' : Ptr → Bool}
      → Reach z os m s live
      → Step z os s live s' live'
      → Reach z os m s' live'

-- A pool that holds exactly the slots of `live` for a client.
pub record Holds {ℓ} {T : Type ℓ} (z : Sizes) (os : ℕ → Ptr) (s : Pool T) (live : Ptr → Bool)
    : Type ℓ where
  pub xs : List Ptr
  pub left : ℕ
  pub valid : IsValid z os live xs left s

module _ {ℓ} {T : Type ℓ} {z : Sizes} {os : ℕ → Ptr} (sized : IsSized z) (new : IsNew z os) where
  -- `allocate` is a function: what it returned is what the invariant promises.
  allocate-Holds :
      {live : Ptr → Bool} {s s' : Pool T} {p : Ptr}
      → Holds z os s live
      → allocate z os s ≡ some (s', p)
      → Holds z os s' (mark live p true)
  allocate-Holds {live} {s} {s'} {p} h e =
      let a = allocate-Allocated sized new s h.valid in
      let same : s' ≡ a.state = cc (a.returned) in
      let slot : p ≡ a.p = cc (a.returned) in
      rw (same, slot) (record { xs = a.xs; left = a.left; valid = a.valid })

  Step-Holds :
      {live live' : Ptr → Bool} {s s' : Pool T}
      → Step z os s live s' live'
      → Holds z os s live
      → Holds z os s' live'
  Step-Holds (allocated e) h = allocate-Holds h e
  Step-Holds (constructed p x held) h = record {
    xs = h.xs;
    left = h.left;
    valid = construct-IsValid sized new h.valid p held x;
  }
  Step-Holds (destroyed p held) h = record {
    xs = h.xs;
    left = h.left;
    valid = destroy-IsValid sized new h.valid p held;
  }
  Step-Holds (deallocated p held) h = record {
    xs = p ∷ h.xs;
    left = h.left;
    valid = deallocate-IsValid sized new h.valid p held;
  }

  pub Reach-Holds :
      {m : Ptr → Slot T} {live : Ptr → Bool} {s : Pool T} → Reach z os m s live → Holds z os s live
  Reach-Holds start = record { xs = []; left = 0; valid = init-IsValid sized new _ }
  Reach-Holds (more r st) = Step-Holds st (Reach-Holds r)

  module _ {m : Ptr → Slot T} {live : Ptr → Bool} {s : Pool T} (r : Reach z os m s live) where
    -- Let the sizes fit, and `operator new` return blocks that are not null and do not overlap.
    -- After any sequence of calls from a new pool by a client that uses and gives back only slots
    -- that it holds, two different slots that it holds share no byte, and each lies in the body of
    -- a block that the pool has got.
    pub Reach-Apart :
        (a b : Ptr)
        → live a ≡ true
        → live b ≡ true
        → a ≢ b
        → Within z os s.news a × Within z os s.news b × Apart z.slot a b
    Reach-Apart a b la lb ne =
        let v = (Reach-Holds r).valid in
        (
          v.within a (ground arith),
          v.within b (ground arith),
          v.apart a b (ground arith) (ground arith) ne,
        )

    -- For such sizes and blocks, after any such sequence, `allocate` returns a slot that is not
    -- null and that the client does not hold, and it changes the contents of no slot that it holds.
    pub Reach-allocate :
        (s' : Pool T) × (p : Ptr) × (allocate z os s ≡ some (s', p))
        × (0 < p)
        × (live p ≡ false)
        × ((a : Ptr) → (live a ≡ false) ⊎ (s'.mem a ≡ s.mem a))
    Reach-allocate =
        let a = allocate-Allocated sized new s (Reach-Holds r).valid in
        (
          a.state,
          a.p,
          a.returned,
          a.not_null,
          a.fresh,
          λ q. elim (Bool-cases (live q)) [
            | inl held ↦ inr (a.same q held)
            | inr other ↦ inl other
          ],
        )

    -- For such sizes and blocks, after any such sequence, the destructor ends and gives to
    -- `operator delete` the blocks that `operator new` returned, each once, the last one first.
    pub Reach-release : release s ≡ some (blocks os s.news)
    Reach-release = release-blocks new s (Reach-Holds r).valid
