-- ===== src/MemoryPool/Write.antt =====
-- MemoryPool.hpp: what a write to one slot changes, and the sizes of a block.
use collection_of_mini_proje.Prelude.{
  ◌+◌, ◌*◌, ◌≤◌, ◌<◌, ◌≡◌, ◌≢◌, inl, inr, ◌==◌, ==_iff, arith, Bool-cases,
}
use collection_of_mini_proje.MemoryPool.{Ptr, Sizes, Slot, write, slot_count}
use collection_of_mini_proje.MemoryPool.Invariant.{IsSized}

module _ {ℓ} {T : Type ℓ} (m : Ptr → Slot T) (c : Slot T) where
  pub write_self : (p a : Ptr) → a ≡ p → write m p c a ≡ c
  unfolding write
  write_self p a e = rw ((==_iff a p).1 e)

  pub write_ne : (p a : Ptr) → a ≢ p → write m p c a ≡ m a
  unfolding write
  write_ne p a ne = elim (Bool-cases (a == p)) [
    | inl e ↦ absurd (ne ((==_iff a p).0 e))
    | inr e ↦ rw e
  ]

module _ {z : Sizes} (sized : IsSized z) where
  -- A block has room for a slot.
  pub slot_count-pos : 0 < slot_count z
  unfolding slot_count
  slot_count-pos = grind (arith, sized.block_fits, sized.pointer_fits, sized.pointer_pos)

  -- The slots of a block end before the block does.
  pub slot_count-fits : z.pointer + slot_count z * z.slot ≤ z.block
  unfolding slot_count
  slot_count-fits = omega (arith, sized.block_fits, sized.pointer_fits)
