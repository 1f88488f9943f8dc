-- ===== src/MemoryPool.antt =====
-- MemoryPool.hpp of the memory pool project: an allocator that cuts fixed-size slots out of
-- blocks. The four pointers of the class are the fields of `Pool`; the memory that they lead
-- into is `mem`, and `news` counts the calls of `operator new`, whose results are a parameter.
pub mod Write
pub mod Invariant
pub mod Allocate
pub mod Deallocate
pub mod Client
pub mod Blocks
pub mod Failure
pub mod Release
pub mod Examples
use collection_of_mini_proje.Prelude.{
  ℕ, zero, suc, ◌+◌, ◌-◌, ◌*◌, ◌/◌, ◌≤◌, ◌<◌, Bool, ◌&&◌, Option, none, some, List, [], ◌∷◌, ◌==◌,
  leb, if◌then◌else◌,
}

abbrev pub Ptr : Type 0
Ptr = ℕ

abbrev pub null : Ptr
null = 0

-- `sizeof` of a block, of a slot and of a pointer.
pub record Sizes : Type 0 where
  pub block : ℕ
  pub slot : ℕ
  pub pointer : ℕ

-- `union Slot_`, with its active member.
pub data Slot {ℓ} (T : Type ℓ) : Type ℓ where
  raw : Slot T
  element : T → Slot T
  next : Ptr → Slot T

pub record Pool {ℓ} (T : Type ℓ) : Type ℓ where
  pub current_block : Ptr
  pub current_slot : Ptr
  pub last_slot : Ptr
  pub free_slots : Ptr
  pub mem : Ptr → Slot T
  pub news : ℕ

module _ {ℓ} {T : Type ℓ} where
  unfoldable pub write : (Ptr → Slot T) → Ptr → Slot T → Ptr → Slot T
  write m p c a = if a == p then c else m a

  -- `p->next`; reading the other member is undefined behaviour, here `none`.
  unfoldable pub load_next : (Ptr → Slot T) → Ptr → Option Ptr
  load_next m p = elim (m p) [ next q ↦ some q | _ ↦ none ]

  -- A pool that is default constructed, in a memory with any contents.
  unfoldable pub init : (Ptr → Slot T) → Pool T
  init m = record {
    current_block = null;
    current_slot = null;
    last_slot = null;
    free_slots = null;
    mem = m;
    news = 0;
  }

-- The number of slots in a block.
unfoldable pub slot_count : Sizes → ℕ
slot_count z = let body_size = z.block - z.pointer in body_size / z.slot

-- `os n` is the address that the n-th call of `operator new` returns.
module _ {ℓ} {T : Type ℓ} (z : Sizes) (os : ℕ → Ptr) where
  -- The branch of `allocate` that gets a block.
  unfoldable pub refill : Pool T → Pool T
  unfolding slot_count
  refill s =
      let new_block = os s.news in
      let body = new_block + z.pointer in
      record s {
        mem = write s.mem new_block (next s.current_block);
        current_block = new_block;
        last_slot = body + slot_count z * z.slot;
        current_slot = body;
        news = s.news + 1;
      }

  -- `return currentSlot_++`
  unfoldable pub bump : Pool T → Pool T × Ptr
  bump s = (record s { current_slot = s.current_slot + z.slot }, s.current_slot)

  unfoldable pub allocate : Pool T → Option (Pool T × Ptr)
  unfolding load_next refill bump
  allocate s =
      if s.free_slots == null
      then some (bump (if leb s.last_slot s.current_slot then refill s else s))
      else elim (load_next s.mem s.free_slots) [
        | none ↦ none
        | some q ↦ some (record s { free_slots = q }, s.free_slots)
      ]

-- What a call of `allocate` can do: it returns a slot, passes on the `std::bad_alloc` of `operator
-- new`, or reads a member that is not active.
pub data Allocation {ℓ} (T : Type ℓ) : Type ℓ where
  returned : Pool T → Ptr → Allocation T
  bad_alloc : Pool T → Allocation T
  undefined : Allocation T

module _ {ℓ} {T : Type ℓ} (z : Sizes) where
  abbrev pub allocation_of : Option (Pool T × Ptr) → Allocation T
  allocation_of none = undefined
  allocation_of (some (s, p)) = returned s p

  -- `allocate`, where `block` is what `operator new` returns if it is called, and `none` its failure.
  unfoldable pub try_allocate : Option Ptr → Pool T → Allocation T
  try_allocate block s =
      let slot = λ (b : Ptr). allocation_of (allocate z (λ _. b) s) in
      if (s.free_slots == null) && leb s.last_slot s.current_slot
      then elim block [ none ↦ bad_alloc s | some b ↦ slot b ]
      else slot null

module _ {ℓ} {T : Type ℓ} where
  -- Placement new of an element, and the call of its destructor.
  unfoldable pub construct : Pool T → Ptr → T → Pool T
  construct s p x = record s { mem = write s.mem p (element x) }

  unfoldable pub destroy : Pool T → Ptr → Pool T
  destroy s p = record s { mem = write s.mem p raw }

  unfoldable pub deallocate : Pool T → Ptr → Pool T
  deallocate s p =
      if p == null then s else record s { mem = write s.mem p (next s.free_slots); free_slots = p }

  -- The element that a pointer leads to; a read of anything else is undefined behaviour.
  unfoldable pub get : Pool T → Ptr → Option T
  get s p = elim (s.mem p) [ element x ↦ some x | _ ↦ none ]

  -- The loop of the destructor: the blocks given to `operator delete`, in order. The first
  -- `none` is for too little fuel, the second for a header that is no pointer.
  unfoldable pub release_loop : ℕ → (Ptr → Slot T) → Ptr → Option (List Ptr)
  unfolding load_next
  release_loop zero m curr = none
  release_loop (suc fuel) m curr =
      let rest = λ (prev : Ptr). release_loop fuel m prev in
      if curr == null then some [] else elim (load_next m curr) [
        | none ↦ none
        | some prev ↦ elim (rest prev) [ none ↦ none | some freed ↦ some (curr ∷ freed) ]
      ]

  -- The destructor. There is a block for each call of `operator new`, so this fuel is enough.
  unfoldable pub release : Pool T → Option (List Ptr)
  release s = release_loop (s.news + 1) s.mem s.current_block
