-- ===== src/StackAlloc/OnPool.antt =====
-- The two headers together, as main.cxx puts them: a stack whose nodes come from a memory pool.
use collection_of_mini_proje.Prelude.{
  ℕ, ◌<◌, ◌≡◌, ◌≢◌, inl, inr, refl, ◌∙◌, Bool, List, [], ◌==◌, length, arith, Bool-cases, some, ◌∷◌,
}
use collection_of_mini_proje.MemoryPool.{
  Ptr, null, Sizes, Slot, raw, element, next, Pool, init, allocate, construct, destroy, deallocate,
  get,
}
use collection_of_mini_proje.MemoryPool.Write.{write_self, write_ne}
use collection_of_mini_proje.MemoryPool.Invariant.{IsSized, IsNew}
use collection_of_mini_proje.MemoryPool.Allocate.{allocate-Allocated}
use collection_of_mini_proje.MemoryPool.Deallocate.{
  init-IsValid, construct-IsValid, destroy-IsValid, deallocate-IsValid,
}
use collection_of_mini_proje.MemoryPool.Client.{Holds}
use collection_of_mini_proje.StackAlloc.{Node, Stack, ok, new_stack}
use collection_of_mini_proje.StackAlloc.Interface.{Allocator, IsAllocator, Fresh}
use collection_of_mini_proje.StackAlloc.Chain.{IsStack, nil}
use collection_of_mini_proje.StackAlloc.Runs.{Call, list_run, run, run-list_run}

module _ {ℓ} {N : Type ℓ} where
  unfoldable pub pool_allocator : Sizes → (ℕ → Ptr) → Allocator N (Pool N)
  pool_allocator z os = record {
    allocate = allocate z os;
    construct = construct;
    destroy = destroy;
    deallocate = deallocate;
    read = get;
  }

  get-same : (s s' : Pool N) (q : Ptr) → s'.mem q ≡ s.mem q → get s' q ≡ get s q
  unfolding get
  get-same s s' q e = rw (e, get)

  get-construct : (s : Pool N) (p : Ptr) (x : N) → get (construct s p x) p ≡ some x
  unfolding get construct
  get-construct s p x = rw (write_self s.mem (element x) p p refl, get)

  get-construct_ne : (s : Pool N) (p q : Ptr) (x : N) → q ≢ p → get (construct s p x) q ≡ get s q
  unfolding construct
  get-construct_ne s p q x ne = get-same s _ q (write_ne s.mem (element x) p q ne)

  get-deallocate_ne :
      (s : Pool N) (p q : Ptr) → q ≢ p → get (deallocate (destroy s p) p) q ≡ get s q
  unfolding deallocate destroy
  get-deallocate_ne s p q ne = elim (Bool-cases (p == null)) [
    | inl e ↦ rw e (get-same s _ q (write_ne s.mem raw p q ne))
    | inr e ↦
        rw e (get-same s _ q (write_ne _ (next s.free_slots) p q ne ∙ write_ne s.mem raw p q ne))
  ]

  module _ {z : Sizes} {os : ℕ → Ptr} (sized : IsSized z) (new : IsNew z os) where
    pool-Fresh :
        {s : Pool N} {live : Ptr → Bool}
        → Holds z os s live
        → Fresh (pool_allocator z os) (Holds z os) s live
    unfolding pool_allocator
    pool-Fresh {s} h =
        let a = allocate-Allocated sized new s h.valid in
        record {
          state = a.state;
          p = a.p;
          returned = a.returned;
          not_null = a.not_null;
          fresh = a.fresh;
          holds = record { xs = a.xs; left = a.left; valid = a.valid };
          same = λ q i. get-same s a.state q (a.same q i);
        }

    -- The memory pool is an allocator for the stack: it keeps every promise of the interface, if
    -- the sizes fit and `operator new` returns blocks that are not null and do not overlap.
    pub pool-IsAllocator : IsAllocator (pool_allocator z os) (Holds z os)
    unfolding pool_allocator
    pool-IsAllocator = record {
      allocated = pool-Fresh;
      constructed = λ p x h held. record {
        xs = h.xs;
        left = h.left;
        valid = construct-IsValid sized new h.valid p held x;
      };
      given_back = λ p h held. record {
        xs = p ∷ h.xs;
        left = h.left;
        valid = deallocate-IsValid sized new (destroy-IsValid sized new h.valid p held) p held;
      };
      read_constructed = get-construct;
      read_construct_ne = get-construct_ne;
      read_give_back_ne = get-deallocate_ne;
    }

module _ {ℓ} {T : Type ℓ} {z : Sizes} {os : ℕ → Ptr} (sized : IsSized z) (new : IsNew z os) where
  -- Any calls on a new stack over a new memory pool, with fuel above their number, end with no
  -- undefined behaviour and reply as the same calls on the empty list, if the sizes fit and
  -- `operator new` returns blocks that are not null and do not overlap.
  pub pool_run-list_run :
      (m : Ptr → Slot (Node T)) (fuel : ℕ) (calls : List (Call T))
      → length calls < fuel
      → (st' : Stack (Pool (Node T))) × (run
            (pool_allocator z os)
            fuel
            calls
            (new_stack (pool_allocator z os) (init m))
          ≡ ok (st', (list_run calls []).1))
  unfolding new_stack
  pool_run-list_run m fuel calls h =
      let is : IsStack (pool_allocator z os) (Holds z os) (new_stack (pool_allocator z os) (init m))
          [] =
        record {
          chain = nil;
          holds = record { xs = []; left = 0; valid = init-IsValid sized new m };
        } in
      let (st', cs', e, same, is') =
        run-list_run (pool-IsAllocator sized new) fuel calls _ [] is (omega arith) in
      (st', e)
