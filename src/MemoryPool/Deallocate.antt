-- ===== src/MemoryPool/Deallocate.antt =====
-- MemoryPool.hpp: `construct`, `destroy` and `deallocate` at a slot that is handed out.
use collection_of_mini_proje.Prelude.{
  ℕ, ◌<◌, ◌≡◌, inl, inr, refl, Bool, true, false, some, List, [], ◌∷◌, ◌==◌, arith, Bool-cases, ap,
  ◌∙◌,
}
use collection_of_mini_proje.MemoryPool.{
  Ptr, null, Sizes, Slot, element, raw, next, Pool, init, allocate, construct, destroy, deallocate,
  write,
}
use collection_of_mini_proje.MemoryPool.Write.{write_self, write_ne}
use collection_of_mini_proje.MemoryPool.Allocate.{header-ne, allocate_reuse}
use collection_of_mini_proje.MemoryPool.Invariant.{
  has, mark, IsSized, IsNew, nil, cons, FreeList-frame, IsValid,
}

module _ {ℓ} {T : Type ℓ} {z : Sizes} {os : ℕ → Ptr} (sized : IsSized z) (new : IsNew z os) where
  -- A default constructed pool has handed out nothing.
  pub init-IsValid : (m : Ptr → Slot T) → IsValid z os (λ _. false) [] 0 (init m)
  unfolding init
  init-IsValid m = record {
    current = refl;
    headers = λ i h. elim h [ ];
    free = nil;
    dead = λ a h. refl;
    within = λ a h. cc;
    apart = λ a b h. cc;
    region = record { count = omega arith; within = λ h. absurd (omega arith) };
    frontier = λ a h. cc;
  }

  module _ {live : Ptr → Bool} {xs : List Ptr} {left : ℕ} {s : Pool T}
      (v : IsValid z os live xs left s) (p : Ptr) (held : live p ≡ true) where
    pub not_null : 0 < p
    not_null =
        let (i, below, low, high) = v.within p (ground arith) in omega (arith, new.not_null i)

    headers_write : (c : Slot T) (i : ℕ) → i < s.news → write s.mem p c (os i) ≡ s.mem (os i)
    headers_write c i h = write_ne _ _ p (os i) (header-ne sized new v p i h (ground arith))

    not-free : has p xs ≡ false
    not-free = elim (Bool-cases (has p xs)) [ inl o ↦ cc (v.dead p o) | inr free ↦ free ]

    free_write : (c : Slot T) (a : Ptr) → has a xs ≡ true → write s.mem p c a ≡ s.mem a
    free_write c a h = write_ne _ _ p a (λ e. cc (v.dead a h, ap live e, held))

    -- What the client writes to a slot that it holds leaves the invariant.
    write-IsValid : (c : Slot T) → IsValid z os live xs left (record s { mem = write s.mem p c })
    write-IsValid c = record {
      current = v.current;
      headers = λ i h. headers_write c i h ∙ v.headers i h;
      free = FreeList-frame v.free (free_write c);
      dead = v.dead;
      within = v.within;
      apart = v.apart;
      region = v.region;
      frontier = v.frontier;
    }

    pub construct-IsValid : (x : T) → IsValid z os live xs left (construct s p x)
    unfolding construct
    construct-IsValid x = write-IsValid (element x)

    pub destroy-IsValid : IsValid z os live xs left (destroy s p)
    unfolding destroy
    destroy-IsValid = write-IsValid raw

    deallocate_lem :
        deallocate s p ≡ record s { mem = write s.mem p (next s.free_slots); free_slots = p }
    unfolding deallocate
    deallocate_lem = let valid : (p == null) ≡ false = ground (arith, not_null) in rw valid

    -- `deallocate` takes the slot from the client and puts it in front of the free list.
    pub deallocate-IsValid : IsValid z os (mark live p false) (p ∷ xs) left (deallocate s p)
    deallocate-IsValid = rw deallocate_lem (record {
      current = v.current;
      headers = λ i h. headers_write _ i h ∙ v.headers i h;
      free =
          cons not_null (write_self _ _ p p refl) (not-free) (FreeList-frame v.free (free_write _));
      dead = λ a h. ground (arith, v.dead a);
      within = λ a o. v.within a (ground arith);
      apart = λ a b o o' ne. v.apart a b (ground arith) (ground arith) ne;
      region = v.region;
      frontier = λ a o. v.frontier a (ground arith);
    })

    -- In a pool that keeps the invariant, with sizes that fit and blocks from `operator new` that
    -- are not null and do not overlap: after `deallocate` of a slot that is handed out, `allocate`
    -- returns that slot, and the pool is as before but for the contents of the slot.
    pub allocate-deallocate :
        allocate z os (deallocate s p)
        ≡ some (record s { mem = write s.mem p (next s.free_slots) }, p)
    allocate-deallocate =
        ap (allocate z os) deallocate_lem
        ∙ allocate_reuse z os _ (ground (arith, not_null)) (write_self _ _ p p refl)
