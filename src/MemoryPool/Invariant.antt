-- ===== src/MemoryPool/Invariant.antt =====
-- MemoryPool.hpp: which addresses are handed out, which are free, and the invariant of the class
-- that ties its four pointers to them.
use collection_of_mini_proje.Prelude.{
  ℕ, zero, suc, ◌+◌, ◌*◌, ◌≤◌, ◌<◌, ◌≡◌, ◌≢◌, ◌⊎◌, Bool, true, false, ◌||◌, List, [], ◌∷◌, ◌==◌,
  if◌then◌else◌, length, arith, some, inl, inr, refl,
}
use collection_of_mini_proje.MemoryPool.{Ptr, null, Sizes, Slot, next, Pool, slot_count, allocate}

abbrev pub has : Ptr → List Ptr → Bool
has a [] = false
has a (p ∷ xs) = (a == p) || has a xs

-- The handed out addresses, with one more or one less.
abbrev pub mark : (Ptr → Bool) → Ptr → Bool → Ptr → Bool
mark live p b a = if a == p then b else live a

-- Two ranges of `n` bytes share none.
abbrev pub Apart : ℕ → Ptr → Ptr → Type 0
Apart n a b = (a + n ≤ b) ⊎ (b + n ≤ a)

-- What the template's `static_assert` and its union say of the sizes.
pub record IsSized (z : Sizes) : Type 0 where
  pub pointer_pos : 0 < z.pointer
  pub pointer_fits : z.pointer ≤ z.slot
  pub block_fits : 2 * z.slot ≤ z.block

-- What the pool relies on in `operator new`: no null, and blocks that do not overlap.
pub record IsNew (z : Sizes) (os : ℕ → Ptr) : Type 0 where
  pub not_null : (i : ℕ) → 0 < os i
  pub blocks_apart : (i j : ℕ) → i ≢ j → Apart z.block (os i) (os j)

-- The pointer to the last of the first `n` blocks.
abbrev pub block_at : (ℕ → Ptr) → ℕ → Ptr
block_at os zero = null
block_at os (suc n) = os n

-- From `p` the `next` members lead through the distinct slots `xs`.
pub data FreeList {ℓ} {T : Type ℓ} (m : Ptr → Slot T) : Ptr → List Ptr → Type ℓ where
  nil : FreeList m null []
  cons :
      {p q : Ptr} {xs : List Ptr}
      → 0 < p
      → m p ≡ next q
      → has p xs ≡ false
      → FreeList m q xs
      → FreeList m p (p ∷ xs)

pub FreeList-frame {ℓ} :
    {T : Type ℓ} {m m' : Ptr → Slot T} {p : Ptr} {xs : List Ptr}
    → FreeList m p xs
    → ((a : Ptr) → has a xs ≡ true → m' a ≡ m a)
    → FreeList m' p xs
FreeList-frame nil same = nil
FreeList-frame (cons {p} pos e out f) same =
    cons pos (ground (arith, same p)) out (FreeList-frame f λ a i. same a (ground arith))

pub FreeList-cases {ℓ} :
    {T : Type ℓ} {m : Ptr → Slot T} {p : Ptr} {xs : List Ptr}
    → FreeList m p xs
    → ((p ≡ null) × (xs ≡ []))
      ⊎ ((q : Ptr) × (ys : List Ptr) × (0 < p)
          × (m p ≡ next q)
          × (has p ys ≡ false)
          × FreeList m q ys
          × (xs ≡ p ∷ ys))
FreeList-cases nil = inl (refl, refl)
FreeList-cases (cons {q} {xs} pos e out f) = inr (q, xs, pos, e, out, f, refl)

-- A slot lies in the body of one of the first `n` blocks.
abbrev pub Within : Sizes → (ℕ → Ptr) → ℕ → Ptr → Type 0
Within z os n a = (i : ℕ) × (i < n) × (os i + z.pointer ≤ a) × (a + z.slot ≤ os i + z.block)

-- `left` slots remain between `currentSlot_` and `lastSlot_`, in the body of a block, and the slot
-- at `a` is none of them.
pub record Region (z : Sizes) (os : ℕ → Ptr) (n : ℕ) (current last : Ptr) (left : ℕ) : Type 0 where
  pub count : last ≡ current + left * z.slot
  pub within : 0 < left → (i : ℕ) × (i < n) × (os i + z.pointer ≤ current) × (last ≤ os i + z.block)

-- The slots of `live` are handed out, those of `xs` are on the free list, in this order.
pub record IsValid {ℓ} {T : Type ℓ} (z : Sizes) (os : ℕ → Ptr) (live : Ptr → Bool) (xs : List Ptr)
    (left : ℕ) (s : Pool T) : Type ℓ where
  pub current : s.current_block ≡ block_at os s.news
  pub headers : (i : ℕ) → i < s.news → s.mem (os i) ≡ next (block_at os i)
  pub free : FreeList s.mem s.free_slots xs
  pub dead : (a : Ptr) → has a xs ≡ true → live a ≡ false
  pub within : (a : Ptr) → (live a || has a xs) ≡ true → Within z os s.news a
  pub apart :
      (a b : Ptr)
      → (live a || has a xs) ≡ true
      → (live b || has b xs) ≡ true
      → a ≢ b
      → Apart z.slot a b
  pub region : Region z os s.news s.current_slot s.last_slot left
  pub frontier :
      (a : Ptr) → (live a || has a xs) ≡ true → (a + z.slot ≤ s.current_slot) ⊎ (s.last_slot ≤ a)

-- `allocate` hands out the slot `p`, which was not handed out, and touches no slot that was. It gets
-- a block only if no slot was left, and counts one slot less.
pub record Allocated {ℓ} {T : Type ℓ} (z : Sizes) (os : ℕ → Ptr) (live : Ptr → Bool)
    (xs0 : List Ptr) (left0 : ℕ) (s : Pool T) : Type ℓ where
  pub state : Pool T
  pub p : Ptr
  pub xs : List Ptr
  pub left : ℕ
  pub returned : allocate z os s ≡ some (state, p)
  pub fresh : live p ≡ false
  pub not_null : 0 < p
  pub valid : IsValid z os (mark live p true) xs left state
  pub same : (a : Ptr) → live a ≡ true → state.mem a ≡ s.mem a
  pub counted :
      ((state.news ≡ s.news) × (length xs + left + 1 ≡ length xs0 + left0))
      ⊎ ((state.news ≡ s.news + 1)
          × (length xs + left + 1 ≡ slot_count z)
          × (length xs0 + left0 ≡ 0))
