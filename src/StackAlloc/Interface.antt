-- ===== src/StackAlloc/Interface.antt =====
-- What StackAlloc.hpp needs of its template parameter `Alloc`: the five operations that it calls,
-- and what they promise about the nodes that the stack holds. MemoryPool.hpp is one such allocator.
use collection_of_mini_proje.Prelude.{◌<◌, ◌≡◌, ◌≢◌, Bool, true, false, Option, some}
use collection_of_mini_proje.MemoryPool.{Ptr}
use collection_of_mini_proje.MemoryPool.Invariant.{mark}

-- `S` is the allocator's state with the memory; `read` is an access through a pointer.
pub record Allocator {ℓ} (N S : Type ℓ) : Type ℓ where
  pub allocate : S → Option (S × Ptr)
  pub construct : S → Ptr → N → S
  pub destroy : S → Ptr → S
  pub deallocate : S → Ptr → S
  pub read : S → Ptr → Option N

pub record Fresh {ℓ} {N S : Type ℓ} (a : Allocator N S) (Holds : S → (Ptr → Bool) → Type ℓ) (s : S)
    (live : Ptr → Bool) : Type ℓ where
  pub state : S
  pub p : Ptr
  pub returned : a.allocate s ≡ some (state, p)
  pub not_null : 0 < p
  pub fresh : live p ≡ false
  pub holds : Holds state (mark live p true)
  pub same : (q : Ptr) → live q ≡ true → a.read state q ≡ a.read s q

-- `Holds s live`: the client holds exactly the nodes of `live`.
pub record IsAllocator {ℓ} {N S : Type ℓ} (a : Allocator N S) (Holds : S → (Ptr → Bool) → Type ℓ)
    : Type ℓ where
  pub allocated : {s : S} {live : Ptr → Bool} → Holds s live → Fresh a Holds s live
  pub constructed :
      {s : S} {live : Ptr → Bool} (p : Ptr) (x : N)
      → Holds s live
      → live p ≡ true
      → Holds (a.construct s p x) live
  pub given_back :
      {s : S} {live : Ptr → Bool} (p : Ptr)
      → Holds s live
      → live p ≡ true
      → Holds (a.deallocate (a.destroy s p) p) (mark live p false)
  pub read_constructed : (s : S) (p : Ptr) (x : N) → a.read (a.construct s p x) p ≡ some x
  pub read_construct_ne :
      (s : S) (p q : Ptr) (x : N) → q ≢ p → a.read (a.construct s p x) q ≡ a.read s q
  pub read_give_back_ne :
      (s : S) (p q : Ptr) → q ≢ p → a.read (a.deallocate (a.destroy s p) p) q ≡ a.read s q
