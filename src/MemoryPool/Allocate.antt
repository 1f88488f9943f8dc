-- ===== src/MemoryPool/Allocate.antt =====
-- MemoryPool.hpp: `allocate` on its three paths.
use collection_of_mini_proje.Prelude.{
  ℕ, zero, suc, ◌+◌, ◌<◌, ◌≡◌, ◌≢◌, ◌⊎◌, inl, inr, refl, Bool, true, false, ◌||◌, some, List, [],
  ◌∷◌, ◌==◌, arith, Bool-cases, sym, leb, length, subst, ◌∙◌, ap,
}
use native.Mathlib.Numerals.{add-one}
use collection_of_mini_proje.MemoryPool.{
  Ptr, null, Sizes, next, Pool, load_next, slot_count, refill, bump, allocate,
}
use collection_of_mini_proje.MemoryPool.Write.{
  write_self, write_ne, slot_count-pos, slot_count-fits,
}
use collection_of_mini_proje.MemoryPool.Invariant.{
  has, mark, IsSized, IsNew, block_at, FreeList, FreeList-frame, FreeList-cases, IsValid, Allocated,
}

-- On a free list with a slot `allocate` takes it.
pub allocate_reuse {ℓ} :
    {T : Type ℓ} (z : Sizes) (os : ℕ → Ptr) (s : Pool T) {q : Ptr}
    → (s.free_slots == null) ≡ false
    → s.mem s.free_slots ≡ next q
    → allocate z os s ≡ some (record s { free_slots = q }, s.free_slots)
unfolding allocate load_next
allocate_reuse z os s valid e = rw (valid, e)

module _ {ℓ} {T : Type ℓ} {z : Sizes} {os : ℕ → Ptr} (sized : IsSized z) (new : IsNew z os) where
  module _ {live : Ptr → Bool} {xs : List Ptr} {left : ℕ} {s : Pool T}
      (v : IsValid z os live xs left s) where
    open v use {within, frontier, region}

    -- A slot of the pool is no block's header.
    pub header-ne : (a : Ptr) (i : ℕ) → i < s.news → (live a || has a xs) ≡ true → os i ≢ a
    header-ne a i h o e =
        let (j, below, low, high) = within a o in
        elim (Bool-cases (i == j)) [
          | inl eq ↦ ground (arith, sized.pointer_pos)
          | inr ne ↦ ground (arith, new.blocks_apart i j, sized.pointer_pos, sized.pointer_fits)
        ]

  module _ {live : Ptr → Bool} {xs : List Ptr} {k : ℕ} {s : Pool T}
      (v : IsValid z os live xs (suc k) s) where
    open v use {within, frontier, region}

    -- The next slot to be cut is not owned.
    frontier-free : (live s.current_slot || has s.current_slot xs) ≡ false
    frontier-free = elim (Bool-cases (live s.current_slot || has s.current_slot xs)) [
      | inl o ↦ absurd (
          omega
            (arith, frontier s.current_slot o, region.count, sized.pointer_pos, sized.pointer_fits))
      | inr free ↦ free
    ]

    bump-IsValid : IsValid z os (mark live s.current_slot true) xs k (bump z os s).0
    unfolding bump
    bump-IsValid = record {
      current = v.current;
      headers = v.headers;
      free = v.free;
      dead = λ a h. ground (arith, v.dead a, frontier-free);
      within = λ a o. elim (Bool-cases (a == s.current_slot)) [
        | inl here ↦
            let (i, below, low, high) = region.within (omega arith) in
            (i, below, ground arith, ground (arith, region.count))
        | inr other ↦ within a (ground arith)
      ];
      apart = λ a b o o' ne. ground (arith, v.apart a b, frontier a, frontier b, region.count);
      region = record {
        count = omega (arith, region.count);
        within = λ h.
            let (i, below, low, high) = region.within (omega arith) in
            (i, below, omega arith, high);
      };
      frontier = λ a o. ground (arith, frontier a);
    }

  module _ {live : Ptr → Bool} {left : ℕ} {s : Pool T} (v : IsValid z os live [] left s) where
    open v use {within}

    refill-headers : (i : ℕ) → i < s.news + 1 → (refill z os s).mem (os i) ≡ next (block_at os i)
    unfolding refill
    refill-headers i h = elim (Bool-cases (i == s.news)) [
      | inl e ↦
          let last : i ≡ s.news = ground arith in
          write_self _ _ _ _ (ap os last) ∙ ap next (v.current ∙ ap (block_at os) (sym last))
      | inr e ↦
          let older : i < s.news = ground arith in
          let ne : os i ≢ os s.news = omega (
            arith,
            new.blocks_apart i s.news (omega arith),
            sized.block_fits,
            sized.pointer_fits,
            sized.pointer_pos,
          ) in
          write_ne _ _ (os s.news) (os i) ne ∙ v.headers i older
    ]

    refill-mem : (a : Ptr) → live a ≡ true → (refill z os s).mem a ≡ s.mem a
    unfolding refill
    refill-mem a o =
        let (i, below, low, high) = within a (ground arith) in
        write_ne _ _ (os s.news) a (
          omega (
            arith,
            new.blocks_apart i s.news (omega arith),
            sized.block_fits,
            sized.pointer_fits,
            sized.pointer_pos,
          ))

    refill-IsValid : IsValid z os live [] (slot_count z) (refill z os s)
    unfolding refill
    refill-IsValid = record {
      current = rw add-one;
      headers = refill-headers;
      free = FreeList-frame v.free (λ a h. cc);
      dead = v.dead;
      within = λ a o. let (i, below, low, high) = within a o in (i, omega arith, low, high);
      apart = v.apart;
      region = record {
        count = refl;
        within = λ h. (s.news, omega arith, omega arith, omega (arith, slot_count-fits sized));
      };
      frontier = λ a o.
          let (i, below, low, high) = within a o in
          omega (arith, new.blocks_apart i s.news (omega arith), slot_count-fits sized);
    }

  -- The head of the free list is handed out.
  reuse-IsValid :
      {live : Ptr → Bool} {left : ℕ} {s : Pool T} {p q : Ptr} {xs : List Ptr}
      → IsValid z os live (p ∷ xs) left s
      → FreeList s.mem q xs
      → has p xs ≡ false
      → IsValid z os (mark live p true) xs left (record s { free_slots = q })
  reuse-IsValid v f out = record {
    current = v.current;
    headers = v.headers;
    free = f;
    dead = λ a h. ground (arith, v.dead a);
    within = λ a o. v.within a (ground arith);
    apart = λ a b o o' ne. v.apart a b (ground arith) (ground arith) ne;
    region = v.region;
    frontier = λ a o. v.frontier a (ground arith);
  }

  -- A slot is cut from the current block, if `allocate` comes to that.
  bump-Allocated :
      {live : Ptr → Bool} {xs xs0 : List Ptr} (left : ℕ) {left0 : ℕ} {s s' : Pool T}
      → 0 < left
      → IsValid z os live xs left s'
      → allocate z os s ≡ some (bump z os s')
      → ((a : Ptr) → live a ≡ true → s'.mem a ≡ s.mem a)
      → ((s'.news ≡ s.news) × (length xs + left ≡ length xs0 + left0))
        ⊎ ((s'.news ≡ s.news + 1) × (length xs + left ≡ slot_count z) × (length xs0 + left0 ≡ 0))
      → Allocated z os live xs0 left0 s
  unfolding bump
  bump-Allocated zero pos v e same c = absurd (omega arith)
  bump-Allocated {live} {xs} (suc k) {s' = s'} pos v e same c =
      let (i, below, low, high) = v.region.within pos in
      record {
        state = (bump z os s').0;
        p = s'.current_slot;
        xs = xs;
        left = k;
        returned = e;
        fresh = ground (arith, frontier-free v);
        not_null = omega (arith, sized.pointer_pos);
        valid = bump-IsValid v;
        same = same;
        counted = elim c [
          | inl (e, n) ↦ inl (e, omega (arith, n))
          | inr (e, n, none_left) ↦ inr (e, omega (arith, n), none_left)
        ];
      }

  -- The free list is empty: a slot is cut, from a new block if the current one is used up.
  cut-Allocated :
      {live : Ptr → Bool} (left : ℕ) {s : Pool T}
      → s.free_slots ≡ null
      → IsValid z os live [] left s
      → Allocated z os live [] left s
  unfolding allocate refill
  cut-Allocated zero {s} e v =
      let full : leb s.last_slot s.current_slot ≡ true = ground (arith, v.region.count) in
      bump-Allocated (slot_count z) (slot_count-pos sized) (refill-IsValid v) (rw (e, full))
        (λ a o. refill-mem v a (ground arith)) (inr (refl, omega arith, omega arith))
  cut-Allocated (suc k) {s} e v =
      let more : leb s.last_slot s.current_slot ≡ false =
        ground (arith, v.region.count, sized.pointer_pos, sized.pointer_fits) in
      bump-Allocated (suc k) (omega arith) v (rw (e, more)) (λ a o. refl) (inl (refl, refl))

  reuse-Allocated :
      {live : Ptr → Bool} {xs : List Ptr} {left : ℕ} {s : Pool T} {q : Ptr}
      → IsValid z os live (s.free_slots ∷ xs) left s
      → 0 < s.free_slots
      → s.mem s.free_slots ≡ next q
      → FreeList s.mem q xs
      → has s.free_slots xs ≡ false
      → Allocated z os live (s.free_slots ∷ xs) left s
  reuse-Allocated {xs} {left} {s} {q} v pos e f out = record {
    state = record s { free_slots = q };
    p = s.free_slots;
    xs = xs;
    left = left;
    returned = allocate_reuse z os s (ground arith) e;
    fresh = v.dead s.free_slots (ground arith);
    not_null = pos;
    valid = reuse-IsValid v f out;
    same = λ a o. refl;
    counted = inl (refl, omega arith);
  }

  -- `allocate` never reads an inactive member, and hands out a slot that was not handed out; the
  -- invariant holds afterwards.
  pub allocate-Allocated :
      {live : Ptr → Bool} {xs : List Ptr} {left : ℕ} (s : Pool T)
      → IsValid z os live xs left s
      → Allocated z os live xs left s
  allocate-Allocated {live} {left} s v = elim (FreeList-cases v.free) [
    | inl (e, empty) ↦
        subst (λ ys. Allocated z os live ys left s) (sym empty)
          (cut-Allocated left e (subst (λ ys. IsValid z os live ys left s) empty v))
    | inr (q, ys, pos, e, out, f, shape) ↦
        subst (λ ys. Allocated z os live ys left s) (sym shape)
          (reuse-Allocated (subst (λ ys. IsValid z os live ys left s) shape v) pos e f out)
  ]
