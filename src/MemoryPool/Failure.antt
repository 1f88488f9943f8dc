-- ===== src/MemoryPool/Failure.antt =====
-- MemoryPool.hpp: `allocate` when `operator new` fails.
use collection_of_mini_proje.Prelude.{
  ℕ, zero, suc, ◌+◌, ◌*◌, ◌<◌, ◌≡◌, inl, inr, refl, ap, ◌∙◌, Bool, true, false, ◌&&◌, ◌==◌, leb,
  length, none, some, arith, Bool-cases,
}
use collection_of_mini_proje.MemoryPool.{
  Ptr, null, Sizes, Slot, Pool, slot_count, refill, allocate, returned, bad_alloc, try_allocate,
  allocation_of,
}
use collection_of_mini_proje.MemoryPool.Invariant.{IsSized, IsNew, FreeList-cases}
use collection_of_mini_proje.MemoryPool.Allocate.{allocate-Allocated}
use collection_of_mini_proje.MemoryPool.Blocks.{Run, Run-Counted}

module _ {ℓ} {T : Type ℓ} (z : Sizes) (os : ℕ → Ptr) where
  -- Whether `allocate` calls `operator new`.
  abbrev calls_new : Pool T → Bool
  calls_new s = (s.free_slots == null) && leb s.last_slot s.current_slot

  -- For a block that `operator new` returns this is `allocate`.
  try_allocate-some :
      (s : Pool T) → try_allocate z (some (os s.news)) s ≡ allocation_of z (allocate z os s)
  unfolding try_allocate allocate refill
  try_allocate-some s = elim (Bool-cases (s.free_slots == null)) [
    | inl e ↦ elim (Bool-cases (leb s.last_slot s.current_slot)) [
      | inl f ↦ rw (e, f)
      | inr f ↦ rw (e, f)
    ]
    | inr e ↦ rw e
  ]

  try_allocate-none :
      (s : Pool T) → calls_new s ≡ false → try_allocate z none s ≡ allocation_of z (allocate z os s)
  unfolding try_allocate allocate refill
  try_allocate-none s h = elim (Bool-cases (s.free_slots == null)) [
    | inl e ↦ let f : leb s.last_slot s.current_slot ≡ false = (rw e at h) in rw (e, f)
    | inr e ↦ rw e
  ]

  try_allocate-bad : (s : Pool T) → calls_new s ≡ true → try_allocate z none s ≡ bad_alloc s
  unfolding try_allocate
  try_allocate-bad s h = rw h

no_left :
    (left current last slot : ℕ)
    → 0 < slot
    → last ≡ current + left * slot
    → leb last current ≡ true
    → left ≡ 0
no_left zero current last slot pos e h = refl
no_left (suc k) current last slot pos e h =
    let more : leb last current ≡ false = ground (arith, e, pos) in cc (h, more)

-- What `allocate` does when `operator new` fails: it throws and leaves the pool as it was, and then
-- every slot of its blocks is handed out; or it returns a slot `p` that was not handed out, and changes
-- no slot that was.
pub data Safe {ℓ} {T : Type ℓ} (z : Sizes) (s : Pool T) (live : Ptr → Bool) (taken given : ℕ)
    : Type ℓ where
  throws :
      try_allocate z none s ≡ bad_alloc s
      → taken ≡ given + s.news * slot_count z
      → Safe z s live taken given
  hands_out :
      (s' : Pool T) (p : Ptr)
      → try_allocate z none s ≡ returned s' p
      → 0 < p
      → live p ≡ false
      → ((a : Ptr) → live a ≡ true → s'.mem a ≡ s.mem a)
      → Safe z s live taken given

module _ {ℓ} {T : Type ℓ} {z : Sizes} {os : ℕ → Ptr} (sized : IsSized z) (new : IsNew z os)
    {m : Ptr → Slot T} {peak : ℕ} {s : Pool T} {live : Ptr → Bool} {taken given : ℕ}
    (r : Run z os m peak s live taken given) where
  none_left : calls_new z os s ≡ true → taken ≡ given + s.news * slot_count z
  none_left h =
      let c = Run-Counted sized new r in
      elim (FreeList-cases c.valid.free) [
        | inl (e, empty) ↦
            let used_up : leb s.last_slot s.current_slot ≡ true = ground arith in
            let none_uncut =
              no_left c.left s.current_slot s.last_slot z.slot
                (omega (arith, sized.pointer_pos, sized.pointer_fits)) c.valid.region.count
                used_up in
            omega (arith, c.all, ap length empty, none_uncut)
        | inr (q, ys, pos, _, _, _, _) ↦ absurd (ground (arith, pos))
      ]

  -- Let the sizes fit, and `operator new` have returned blocks that are not null and do not overlap.
  -- After any calls of a client that uses and gives back only slots that it holds: with the block
  -- that `operator new` returns next, `allocate` with and without failures do the same. If `operator
  -- new` fails, `allocate` throws, leaves the pool as it was, and every slot of its blocks is handed
  -- out; or it returns a slot that is not null and not handed out, and changes no slot that is.
  pub try_allocate-Safe :
      (try_allocate z (some (os s.news)) s ≡ allocation_of z (allocate z os s))
      × Safe z s live taken given
  try_allocate-Safe = (
    try_allocate-some z os s,
    elim (Bool-cases (calls_new z os s)) [
      | inl calls ↦ throws (try_allocate-bad z os s calls) (none_left calls)
      | inr spares ↦
          let a = allocate-Allocated sized new s (Run-Counted sized new r).valid in
          hands_out a.state a.p (try_allocate-none z os s spares ∙ ap (allocation_of z) a.returned)
            a.not_null a.fresh a.same
    ],
  )
