-- ===== src/StackAlloc/Program/Ends.antt =====
-- The whole benchmark ends.
use collection_of_mini_proje.Prelude.{ℕ, ◌⊎◌, Bool, false, List, [], ◌∷◌}
use collection_of_mini_proje.MemoryPool.{Ptr, Sizes, Slot}
use collection_of_mini_proje.MemoryPool.Invariant.{IsSized, IsNew}
use collection_of_mini_proje.StackAlloc.{Node, Outcome}
use collection_of_mini_proje.StackAlloc.Interface.{Allocator, IsAllocator}
use collection_of_mini_proje.StackAlloc.Benchmark.{Short}
use collection_of_mini_proje.StackAlloc.Program.{
  Vector, IsVector, Seconds, elapsed, benchmark, pool_short,
}

module _ {S V : Type 0} {std : Allocator (Node ℕ) S} (std_short : S → Bool)
    {H : S → (Ptr → Bool) → Type 0} (std_laws : IsAllocator std H) (s0 : S)
    (none_held : H s0 (λ p. false)) {vec : Vector V} {items : V → List ℕ}
    (vec_laws : IsVector vec items) {z : Sizes} {os : ℕ → Ptr} (sized : IsSized z)
    (new : IsNew z os) (unavailable : ℕ → Bool) (m : Ptr → Slot (Node ℕ)) (clock : ℕ → ℕ)
    (per_sec : ℕ) where
  abbrev ending : (reps elems : ℕ) → Outcome (List Seconds × List Ptr)
  ending = benchmark std std_short s0 vec z os unavailable m clock per_sec

  abbrev times : List Seconds
  times =
      elapsed per_sec (clock 0) (clock 1)
      ∷ elapsed per_sec (clock 2) (clock 3)
      ∷ elapsed per_sec (clock 4) (clock 5)
      ∷ []

  -- Some call for memory fails: of `std::allocator`, of the pool or of the vector.
  abbrev OutOfMemory : Type 0
  OutOfMemory = Short std_short ⊎ (Short (pool_short unavailable) ⊎ Short vec.full)
