-- ===== src/RadixTree/Map.antt =====
-- The map of children: what its operations do to the order, to the nodes and to the search.
use Prim.Native.Nat.{Ordering}
use collection_of_mini_proje.Prelude.{
  ℕ, suc, ◌≤◌, ◌<◌, ◌≡◌, ◌≢◌, refl, subst, none, ◌==◌, length, drop, arith, if◌then◌else◌,
}
use collection_of_mini_proje.RadixTree.Key.{Key, key_cmp}
use collection_of_mini_proje.RadixTree.Order.{
  rank, prefix, key_cmp_refl, key_cmp_sound, rank_le_of_lt, rank_le_of_gt,
}
use collection_of_mini_proje.RadixTree.Node.{Node, Children, nil, cons, assign, erase_child}
use collection_of_mini_proje.RadixTree.Spec.{get, get_in, Sorted, IsNode, AreNodes}

module _ {T : Type 0} where
  -- A child with the first byte of `k` is under `k`.
  abbrev pub Only : Key → Children T → Type 0
  Only k nil = Unit
  Only k (cons j c cs) = ((rank j ≡ rank k) → j ≡ k) × Only k cs

  -- No child has the rank `r`.
  abbrev pub Free : ℕ → Children T → Type 0
  Free r nil = Unit
  Free r (cons j c cs) = (rank j ≢ r) × Free r cs

  pub Free-Only : (k : Key) (cs : Children T) → Free (rank k) cs → Only k cs
  Free-Only k nil h = tt
  Free-Only k (cons j c cs) h = (λ e. absurd (h.0 e), Free-Only k cs h.1)

  pub Sorted-Free : (r b : ℕ) (cs : Children T) → Sorted b cs → r < b → Free r cs
  Sorted-Free r b nil s h = tt
  Sorted-Free r b (cons j c cs) s h =
      (omega (arith, s.0), Sorted-Free r (suc (rank j)) cs s.1 (omega (arith, s.0)))

  pub get_in-Free : (r : Key) (cs : Children T) → Free (rank r) cs → get_in r cs ≡ none
  unfolding get
  get_in-Free r nil h = refl
  get_in-Free r (cons j c cs) h = ground (arith, get_in-Free r cs h.1)

  pub get_in_below :
      (r : Key) (b : ℕ) (cs : Children T) → Sorted b cs → rank r < b → get_in r cs ≡ none
  get_in_below r b cs s h = get_in-Free r cs (Sorted-Free (rank r) b cs s h)

  -- One more or another child.
  pub get_in-assign :
      (r k : Key) (n : Node T) (b : ℕ) (cs : Children T)
      → Sorted b cs
      → Only k cs
      → get_in r (assign k n cs) ≡ (
          if rank r == rank k
          then (if prefix k r then get (drop (length k) r) n else none)
          else get_in r cs)
  unfolding get assign
  get_in-assign r k n b nil s o = ground arith
  get_in-assign r k n b (cons j c cs) s o = ground (
    arith,
    get_in-assign r k n (suc (rank j)) cs s.1 o.1,
    get_in_below r (suc (rank j)) cs s.1,
    o.0,
    key_cmp_refl k,
    key_cmp_sound k j,
    rank_le_of_lt k j,
    rank_le_of_gt k j,
  )

  -- One child less.
  pub get_in-erase :
      (r k : Key) (b : ℕ) (cs : Children T)
      → Sorted b cs
      → Only k cs
      → get_in r (erase_child k cs) ≡ (if rank r == rank k then none else get_in r cs)
  unfolding get erase_child
  get_in-erase r k b nil s o = ground arith
  get_in-erase r k b (cons j c cs) s o = ground (
    arith,
    get_in-erase r k (suc (rank j)) cs s.1 o.1,
    get_in_below r (suc (rank j)) cs s.1,
    o.0,
    key_cmp_refl k,
    key_cmp_sound k j,
    rank_le_of_lt k j,
    rank_le_of_gt k j,
  )

  pub Sorted-assign :
      (k : Key) (n : Node T) (b : ℕ) (cs : Children T)
      → Sorted b cs
      → Only k cs
      → b ≤ rank k
      → Sorted b (assign k n cs)
  unfolding assign
  Sorted-assign k n b nil s o h = ground arith
  Sorted-assign k n b (cons j c cs) s o h = ground (
    arith,
    Sorted-assign k n (suc (rank j)) cs s.1 o.1,
    o.0,
    key_cmp_refl k,
    key_cmp_sound k j,
    rank_le_of_lt k j,
    rank_le_of_gt k j,
  )

  pub Sorted-weaken : (b c : ℕ) (cs : Children T) → Sorted c cs → b ≤ c → Sorted b cs
  Sorted-weaken b c nil s h = tt
  Sorted-weaken b c (cons j n cs) s h = (omega (arith, s.0), s.1)

  pub Sorted-erase : (k : Key) (b : ℕ) (cs : Children T) → Sorted b cs → Sorted b (erase_child k cs)
  unfolding erase_child
  Sorted-erase k b nil s = tt
  Sorted-erase k b (cons j c cs) s =
      ground (arith, Sorted-erase k (suc (rank j)) cs s.1, Sorted-weaken b (suc (rank j)) cs s.1)

  pub Free-erase :
      (k : Key) (b : ℕ) (cs : Children T)
      → Sorted b cs
      → Only k cs
      → Free (rank k) (erase_child k cs)
  unfolding erase_child
  Free-erase k b nil s o = tt
  Free-erase k b (cons j c cs) s o = ground (
    arith,
    Free-erase k (suc (rank j)) cs s.1 o.1,
    Sorted-Free (rank j) (suc (rank j)) cs s.1,
    Sorted-Free (rank k) (suc (rank j)) cs s.1,
    o.0,
    key_cmp_refl k,
    key_cmp_sound k j,
    rank_le_of_lt k j,
  )

  pub AreNodes-assign :
      (q k : Key) (n : Node T) (cs : Children T)
      → AreNodes q cs
      → IsNode q k n
      → AreNodes q (assign k n cs)
  unfolding assign
  AreNodes-assign q k n nil a i = (i, tt)
  AreNodes-assign q k n (cons j c cs) a i =
      assign_at (key_cmp k j) refl (AreNodes-assign q k n cs a.1 i)
    where
      assign_at :
          (o : Ordering)
          → key_cmp k j ≡ o
          → AreNodes q (assign k n cs)
          → AreNodes q (assign k n (cons j c cs))
      assign_at Ordering.lt e ih = rw (e, assign) (i, a)
      assign_at Ordering.eq e ih =
          rw (e, assign) (subst (λ x. IsNode q x n) (key_cmp_sound k j e) i, a.1)
      assign_at Ordering.gt e ih = rw (e, assign) (a.0, ih)

  pub AreNodes-erase : (q k : Key) (cs : Children T) → AreNodes q cs → AreNodes q (erase_child k cs)
  unfolding erase_child
  AreNodes-erase q k nil a = tt
  AreNodes-erase q k (cons j c cs) a = erase_at (key_cmp k j) refl (AreNodes-erase q k cs a.1)
    where
      erase_at :
          (o : Ordering)
          → key_cmp k j ≡ o
          → AreNodes q (erase_child k cs)
          → AreNodes q (erase_child k (cons j c cs))
      erase_at Ordering.lt e ih = rw (e, erase_child) a
      erase_at Ordering.eq e ih = rw (e, erase_child) a.1
      erase_at Ordering.gt e ih = rw (e, erase_child) (a.0, ih)
