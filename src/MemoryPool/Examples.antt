-- ===== src/MemoryPool/Examples.antt =====
-- MemoryPool.hpp: a pool of blocks of 64 bytes, with slots of 16 and pointers of 8, and a client
-- that takes two slots, fills one and gives it back.
use collection_of_mini_proje.Prelude.{
  ℕ, ◌+◌, ◌*◌, ◌≤◌, ◌<◌, ◌≡◌, ◌⊎◌, refl, Bool, true, false, some, [], ◌∷◌, arith,
}
use collection_of_mini_proje.MemoryPool.{
  Ptr, Sizes, Slot, raw, next, Pool, init, write, slot_count, refill, bump, load_next, allocate,
  construct, destroy, deallocate, release, try_allocate, allocation_of,
}
use collection_of_mini_proje.MemoryPool.Invariant.{mark, Apart, IsSized, IsNew, Within}
use collection_of_mini_proje.MemoryPool.Client.{
  allocated, constructed, destroyed, Reach, start, more, Reach-Holds, Reach-Apart, Reach-allocate,
  Reach-release,
}
use collection_of_mini_proje.MemoryPool.Blocks
use collection_of_mini_proje.MemoryPool.Blocks.{Run, Run-blocks}
use collection_of_mini_proje.MemoryPool.Failure.{Safe, try_allocate-Safe}
use collection_of_mini_proje.MemoryPool.Deallocate.{allocate-deallocate}

abbrev pub sizes : Sizes
sizes = record { block = 64; slot = 16; pointer = 8 }

abbrev pub pages : ℕ → Ptr
pages n = 4096 * (n + 1)

pub sizes-IsSized : IsSized sizes
sizes-IsSized = record {
  pointer_pos = omega arith;
  pointer_fits = omega arith;
  block_fits = omega arith;
}

pub pages-IsNew : IsNew sizes pages
pages-IsNew = record { not_null = λ i. omega arith; blocks_apart = λ i j ne. ground arith }

abbrev zeros : Ptr → Slot ℕ
zeros p = raw

abbrev new_pool : Pool ℕ
new_pool = init zeros

-- The slots that the client holds.
abbrev held : Ptr → Bool
held = mark (mark (λ _. false) 4104 true) 4120 true

-- The pool after `allocate` twice, `construct` and `destroy`.
abbrev used_pool : Pool ℕ
unfolding allocate refill bump slot_count construct destroy write
used_pool =
    destroy
      (construct (bump sizes pages (bump sizes pages (refill sizes pages new_pool)).0).0 4104 7)
      4104

used_pool-Reach : Reach sizes pages zeros used_pool held
unfolding init allocate refill bump slot_count load_next destroy used_pool
used_pool-Reach =
    more (more (more (more start (allocated refl)) (allocated refl)) (constructed 4104 7 refl))
      (destroyed 4104 refl)

Reach-Apart_example : Within sizes pages 1 4104 × Within sizes pages 1 4120 × Apart 16 4104 4120
unfolding used_pool init
Reach-Apart_example =
    Reach-Apart sizes-IsSized pages-IsNew used_pool-Reach 4104 4120 refl refl (omega arith)

Reach-allocate_example :
    (s' : Pool ℕ) × (p : Ptr) × (allocate sizes pages used_pool ≡ some (s', p))
    × (0 < p)
    × (held p ≡ false)
    × ((a : Ptr) → (held a ≡ false) ⊎ (s'.mem a ≡ used_pool.mem a))
Reach-allocate_example = Reach-allocate sizes-IsSized pages-IsNew used_pool-Reach

Reach-release_example : release used_pool ≡ some (4096 ∷ [])
unfolding used_pool init
Reach-release_example = Reach-release sizes-IsSized pages-IsNew used_pool-Reach

allocate-deallocate_example :
    allocate sizes pages (deallocate used_pool 4104)
    ≡ some (record used_pool { mem = write used_pool.mem 4104 (next 0) }, 4104)
unfolding used_pool init
allocate-deallocate_example =
    allocate-deallocate sizes-IsSized pages-IsNew
      (Reach-Holds sizes-IsSized pages-IsNew used_pool-Reach).valid 4104 refl

used_pool-Run : Run sizes pages zeros 2 used_pool held 2 0
unfolding init allocate refill bump slot_count load_next destroy used_pool
used_pool-Run =
    Blocks.destroyed 4104
      (Blocks.constructed 4104 7
        (Blocks.allocated (Blocks.allocated Blocks.start (omega arith) refl) (omega arith) refl)
        refl)
      refl

Run-blocks_example :
    (2 ≤ 0 + used_pool.news * slot_count sizes)
    × (used_pool.news * slot_count sizes < 2 + slot_count sizes)
Run-blocks_example = Run-blocks sizes-IsSized pages-IsNew used_pool-Run

try_allocate-Safe_example :
    (try_allocate sizes (some (pages used_pool.news)) used_pool
      ≡ allocation_of sizes (allocate sizes pages used_pool))
    × Safe sizes used_pool held 2 0
try_allocate-Safe_example = try_allocate-Safe sizes-IsSized pages-IsNew used_pool-Run
