-- ===== src/MemoryPool/Blocks.antt =====
-- MemoryPool.hpp: how many blocks the pool gets. It gets one only when every slot that it has is
-- handed out.
use collection_of_mini_proje.Prelude.{
  ℕ, suc, ◌+◌, ◌*◌, ◌≤◌, ◌<◌, ◌≡◌, inl, inr, refl, ap, ◌∙◌, Bool, true, false, some, List, [], ◌∷◌,
  length, arith,
}
use collection_of_mini_proje.MemoryPool.{
  Ptr, Sizes, Slot, Pool, init, slot_count, allocate, construct, destroy, deallocate,
}
use collection_of_mini_proje.MemoryPool.Write.{slot_count-pos}
use collection_of_mini_proje.MemoryPool.Invariant.{mark, IsSized, IsNew, IsValid}
use collection_of_mini_proje.MemoryPool.Allocate.{allocate-Allocated}
use collection_of_mini_proje.MemoryPool.Deallocate.{
  init-IsValid, construct-IsValid, destroy-IsValid, deallocate-IsValid,
}

-- The calls of a client that never holds more than `peak` slots: `taken` counts the calls of
-- `allocate`, and `given` those of `deallocate`.
pub data Run {ℓ} {T : Type ℓ} (z : Sizes) (os : ℕ → Ptr) (m : Ptr → Slot T) (peak : ℕ)
    : Pool T → (Ptr → Bool) → (taken given : ℕ) → Type ℓ where
  start : Run z os m peak (init m) (λ _. false) 0 0
  allocated :
      {s s' : Pool T} {live : Ptr → Bool} {taken given : ℕ} {p : Ptr}
      → Run z os m peak s live taken given
      → taken < given + peak
      → allocate z os s ≡ some (s', p)
      → Run z os m peak s' (mark live p true) (suc taken) given
  constructed :
      {s : Pool T} {live : Ptr → Bool} {taken given : ℕ} (p : Ptr) (x : T)
      → Run z os m peak s live taken given
      → live p ≡ true
      → Run z os m peak (construct s p x) live taken given
  destroyed :
      {s : Pool T} {live : Ptr → Bool} {taken given : ℕ} (p : Ptr)
      → Run z os m peak s live taken given
      → live p ≡ true
      → Run z os m peak (destroy s p) live taken given
  deallocated :
      {s : Pool T} {live : Ptr → Bool} {taken given : ℕ} (p : Ptr)
      → Run z os m peak s live taken given
      → live p ≡ true
      → Run z os m peak (deallocate s p) (mark live p false) taken (suc given)

-- Every slot of the blocks is free, not cut yet, or handed out, and the last block was needed.
pub record Counted {ℓ} {T : Type ℓ} (z : Sizes) (os : ℕ → Ptr) (peak : ℕ) (s : Pool T)
    (live : Ptr → Bool) (taken given : ℕ) : Type ℓ where
  pub xs : List Ptr
  pub left : ℕ
  pub valid : IsValid z os live xs left s
  pub all : length xs + left + taken ≡ s.news * slot_count z + given
  pub needed : s.news * slot_count z < peak + slot_count z

next_block : (n k : ℕ) → (n + 1) * k ≡ n * k + k
next_block n k = omega arith

module _ {ℓ} {T : Type ℓ} where
  construct_news : (s : Pool T) (p : Ptr) (x : T) → (construct s p x).news ≡ s.news
  unfolding construct
  construct_news s p x = refl

  destroy_news : (s : Pool T) (p : Ptr) → (destroy s p).news ≡ s.news
  unfolding destroy
  destroy_news s p = refl

  deallocate_news : (s : Pool T) (p : Ptr) → (deallocate s p).news ≡ s.news
  unfolding deallocate
  deallocate_news s p = ground arith

module _ {ℓ} {T : Type ℓ} {z : Sizes} {os : ℕ → Ptr} (sized : IsSized z) (new : IsNew z os) where
  allocated-Counted :
      {peak : ℕ} {s s' : Pool T} {live : Ptr → Bool} {taken given : ℕ} {p : Ptr}
      → Counted z os peak s live taken given
      → taken < given + peak
      → allocate z os s ≡ some (s', p)
      → Counted z os peak s' (mark live p true) (suc taken) given
  allocated-Counted {s} {s'} {p = p} c below e =
      let a = allocate-Allocated sized new s c.valid in
      let same : s' ≡ a.state = cc (a.returned) in
      let slot : p ≡ a.p = cc (a.returned) in
      rw (same, slot)
        (elim a.counted [
          | inl (news, n) ↦
              let blocks : a.state.news * slot_count z ≡ s.news * slot_count z =
                ap (λ k. k * slot_count z) news in
              record {
                xs = a.xs;
                left = a.left;
                valid = a.valid;
                all = omega (arith, n, c.all, blocks);
                needed = omega (arith, c.needed, blocks);
              }
          | inr (news, n, none_left) ↦
              let blocks : a.state.news * slot_count z ≡ s.news * slot_count z + slot_count z =
                ap (λ k. k * slot_count z) news ∙ next_block s.news (slot_count z) in
              record {
                xs = a.xs;
                left = a.left;
                valid = a.valid;
                all = omega (arith, n, c.all, none_left, blocks);
                needed = omega (arith, c.all, none_left, blocks, below);
              }
        ])

  pub Run-Counted :
      {m : Ptr → Slot T} {peak : ℕ} {s : Pool T} {live : Ptr → Bool} {taken given : ℕ}
      → Run z os m peak s live taken given
      → Counted z os peak s live taken given
  unfolding init
  Run-Counted {m} start = record {
    xs = [];
    left = 0;
    valid = init-IsValid sized new m;
    all = omega arith;
    needed = omega (arith, slot_count-pos sized);
  }
  Run-Counted (allocated r below e) = allocated-Counted (Run-Counted r) below e
  Run-Counted (constructed {s} p x r held) =
      let c = Run-Counted r in
      record {
        xs = c.xs;
        left = c.left;
        valid = construct-IsValid sized new c.valid p held x;
        all = rw (construct_news s p x) c.all;
        needed = rw (construct_news s p x) c.needed;
      }
  Run-Counted (destroyed {s} p r held) =
      let c = Run-Counted r in
      record {
        xs = c.xs;
        left = c.left;
        valid = destroy-IsValid sized new c.valid p held;
        all = rw (destroy_news s p) c.all;
        needed = rw (destroy_news s p) c.needed;
      }
  Run-Counted (deallocated {s} p r held) =
      let c = Run-Counted r in
      record {
        xs = p ∷ c.xs;
        left = c.left;
        valid = deallocate-IsValid sized new c.valid p held;
        all = rw (deallocate_news s p) (omega (arith, c.all));
        needed = rw (deallocate_news s p) c.needed;
      }

  -- Let the sizes fit, and `operator new` return blocks that are not null and do not overlap. After
  -- any calls of a client that uses and gives back only slots that it holds, and never holds more
  -- than `peak` of them, the slots that it holds are at most those of the blocks that the pool has
  -- got; and these are fewer than `peak` and the slots of one block together.
  pub Run-blocks :
      {m : Ptr → Slot T} {peak : ℕ} {s : Pool T} {live : Ptr → Bool} {taken given : ℕ}
      → Run z os m peak s live taken given
      → (taken ≤ given + s.news * slot_count z) × (s.news * slot_count z < peak + slot_count z)
  Run-blocks r = let c = Run-Counted r in (omega (arith, c.all), c.needed)
