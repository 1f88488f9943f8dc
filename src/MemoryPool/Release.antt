-- ===== src/MemoryPool/Release.antt =====
-- MemoryPool.hpp: the destructor.
use collection_of_mini_proje.Prelude.{
  ℕ, zero, suc, ◌<◌, ◌≡◌, refl, Bool, some, List, [], ◌∷◌, ◌==◌, false, arith,
}
use native.Mathlib.Numerals.{add-one}
use collection_of_mini_proje.MemoryPool.{Ptr, null, Sizes, Slot, next, Pool, release_loop, release}
use collection_of_mini_proje.MemoryPool.Invariant.{IsNew, block_at, IsValid}

-- The first `n` blocks, the last one first.
abbrev pub blocks : (ℕ → Ptr) → ℕ → List Ptr
blocks os zero = []
blocks os (suc n) = os n ∷ blocks os n

module _ {ℓ} {T : Type ℓ} {z : Sizes} {os : ℕ → Ptr} (new : IsNew z os) where
  release_loop-blocks :
      (m : Ptr → Slot T) (n : ℕ)
      → ((i : ℕ) → i < n → m (os i) ≡ next (block_at os i))
      → release_loop (suc n) m (block_at os n) ≡ some (blocks os n)
  unfolding release_loop
  release_loop-blocks m zero h = refl
  release_loop-blocks m (suc n) h =
      let valid : (os n == null) ≡ false = ground (arith, new.not_null n) in
      rw (valid, h n (omega arith), release_loop-blocks m n (λ i l. h i (omega arith)))

  -- The destructor ends, and gives back each block that `operator new` returned, once.
  pub release-blocks :
      {live : Ptr → Bool} {xs : List Ptr} {left : ℕ} (s : Pool T)
      → IsValid z os live xs left s
      → release s ≡ some (blocks os s.news)
  unfolding release
  release-blocks s v = rw (add-one, v.current) (release_loop-blocks s.mem s.news v.headers)
