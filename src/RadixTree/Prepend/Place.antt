-- ===== src/RadixTree/Prepend/Place.antt =====
-- `prepend`: the new node takes the child's place below the parent.
use Prim.Native.Nat.{Ordering}
use collection_of_mini_proje.Prelude.{
  ◌+◌, ◌<◌, ◌≡◌, ◌⊎◌, inl, inr, ap, sym, subst, true, none, some, List, [], ◌==◌, length, drop,
  arith, if◌then◌else◌,
}
use collection_of_mini_proje.RadixTree.Key.{Key, key_cmp}
use collection_of_mini_proje.RadixTree.Order.{key_cmp_sound, rank, prefix}
use collection_of_mini_proje.RadixTree.Node.{
  Node, node, Children, cons, fields, children, key_of, assign, erase_child, nil, write_back, count,
  find_child,
}
use collection_of_mini_proje.RadixTree.Spec.{get, Compact, IsNode, IsRoot, leaf_first}
use collection_of_mini_proje.RadixTree.Map.{
  Free, Free-Only, get_in-erase, get_in-assign, Free-erase, Sorted-erase, Sorted-assign,
  AreNodes-erase, AreNodes-assign,
}
use collection_of_mini_proje.RadixTree.Child.{leaf_first-assign}
use collection_of_mini_proje.RadixTree.Locations.{IsInner, IsLoc}
use collection_of_mini_proje.RadixTree.Count.{
  total, total-inner, total-assign-Free, total-erase, write_back-total,
}
use collection_of_mini_proje.RadixTree.Pointers.{Holds, find_child-assign}
use collection_of_mini_proje.RadixTree.Rebuild.{
  Fits, IsNode-key, Fits-self, Fits-children, Fits-Compact, Child-of, get-inner,
}
use collection_of_mini_proje.RadixTree.Roots.{write_back-Rebuilt, Rebuilt}

same_rank : (k j : Key) → key_cmp k j ≡ Ordering.eq → rank k ≡ rank j
same_rank k j e = ap rank (key_cmp_sound k j e)

module _ {T : Type 0} where
  -- The parent after the child under `k` gave way to `m`.
  abbrev pub replaced : Key → Node T → Node T → Node T
  replaced k m parent = node (fields parent) (assign (key_of m) m (erase_child k (children parent)))

  pub count-erase :
      (k : Key) (c : Node T) (cs : Children T)
      → find_child k cs ≡ some c
      → count (erase_child k cs) + 1 ≡ count cs
  unfolding erase_child find_child
  count-erase k c nil h = cc
  count-erase k c (cons j n cs) h = ground (arith, count-erase k c cs)

  count-assign-Free :
      (k : Key) (n : Node T) (cs : Children T)
      → Free (rank k) cs
      → count (assign k n cs) ≡ count cs + 1
  unfolding assign
  count-assign-Free k n nil h = omega arith
  count-assign-Free k n (cons j c cs) h =
      ground (arith, count-assign-Free k n cs h.1, same_rank k j)

  pub leaf_first-erase :
      (k : Key) (cs : Children T)
      → 0 < rank k
      → leaf_first cs ≡ true
      → leaf_first (erase_child k cs) ≡ true
  unfolding erase_child
  leaf_first-erase k nil pos h = cc
  leaf_first-erase k (cons j c cs) pos h = ground (arith, same_rank k j)

  -- One child for another leaves enough children.
  Compact-replace :
      (k h : Key) (m c : Node T) (cs : Children T)
      → find_child k cs ≡ some c
      → 0 < rank k
      → Free (rank h) (erase_child k cs)
      → Compact cs
      → Compact (assign h m (erase_child k cs))
  Compact-replace k h m c cs found pos free (inl two) =
      inl (omega (arith, count-erase k c cs found, count-assign-Free h m (erase_child k cs) free))
  Compact-replace k h m c cs found pos free (inr first) =
      inr (leaf_first-assign h m (erase_child k cs) (leaf_first-erase k cs pos first))

  -- With `m` in the place of the child under `k`, whose first byte its key shares, the parent still
  -- fits.
  pub replace-Fits :
      {root parent c : Node T} {q : Key} {up : List (Node T)} (k h : Key) (m : Node T)
      → IsRoot root
      → (loc : IsLoc root q parent up) → IsInner q parent
      → find_child k (children parent) ≡ some c
      → 0 < rank k
      → rank h ≡ rank k
      → IsNode q h m
      → Fits loc (replaced k m parent) × Holds q h m (replaced k m parent)
  replace-Fits {root} {parent} {c} {q} {up} k h m r loc inner found pos same is =
      let child = Child-of inner found in
      let cs = erase_child k (children parent) in
      let key = IsNode-key q h m is in
      let free : Free (rank h) cs =
        subst (λ x. Free x cs) (sym same)
          (Free-erase k 0 (children parent) inner.sorted child.only) in
      let self = Fits-self loc r in
      let compact : (up ≡ []) ⊎ Compact (assign h m cs) =
        elim (Fits-Compact loc self inner.internal) [
          | inl e ↦ inl e
          | inr two ↦ inr (Compact-replace k h m c (children parent) found pos free two)
        ] in
      let sorted =
        Sorted-assign h m 0 cs (Sorted-erase k 0 (children parent) inner.sorted)
          (Free-Only h cs free) (omega arith) in
      let nodes = AreNodes-assign q h m cs (AreNodes-erase q k (children parent) inner.nodes) is in
      rw key (
        Fits-children loc (assign h m cs) self inner.internal compact sorted nodes,
        record {
          inner = record {
            full = inner.full;
            internal = inner.internal;
            sorted = sorted;
            nodes = nodes;
          };
          found = find_child-assign h m cs;
        },
      )

  -- The root afterwards.
  pub replace-Rebuilt :
      {root parent c : Node T} {q : Key} {up : List (Node T)} (k h : Key) (m : Node T)
      → IsRoot root
      → (loc : IsLoc root q parent up) → IsInner q parent
      → find_child k (children parent) ≡ some c
      → 0 < rank k
      → rank h ≡ rank k
      → IsNode q h m
      → Rebuilt root q (replaced k m parent) (write_back (replaced k m parent) up)
        × (total (write_back (replaced k m parent) up) + total parent
            ≡ total root + total (replaced k m parent))
  replace-Rebuilt {parent = parent} k h m r loc inner found pos same is =
      let n' = replaced k m parent in
      let fits = (replace-Fits k h m r loc inner found pos same is).0 in
      (write_back-Rebuilt n' loc r fits inner.internal, write_back-total n' loc r fits)

  -- The search in the parent afterwards.
  pub replaced-search :
      {parent c : Node T} {q : Key} (k h : Key) (m : Node T) (r : Key)
      → IsInner q parent
      → find_child k (children parent) ≡ some c
      → rank h ≡ rank k
      → IsNode q h m
      → get r (replaced k m parent) ≡ (
          if rank r == rank k
          then (if prefix h r then get (drop (length h) r) m else none)
          else get r parent)
  replaced-search {parent} {c} {q} k h m r inner found same is =
      let child = Child-of inner found in
      let cs = erase_child k (children parent) in
      let key = IsNode-key q h m is in
      let free : Free (rank h) cs =
        subst (λ x. Free x cs) (sym same)
          (Free-erase k 0 (children parent) inner.sorted child.only) in
      rw
        (
          key,
          get-inner r (node (fields parent) (assign h m cs)) inner.internal,
          get_in-assign r h m 0 cs (Sorted-erase k 0 (children parent) inner.sorted)
              (Free-Only h cs free),
          get_in-erase r k 0 (children parent) inner.sorted child.only,
          get-inner r parent inner.internal,
          same,
        )
        (ground arith)

  pub replaced-total :
      {parent c : Node T} {q : Key} (k h : Key) (m : Node T)
      → IsInner q parent
      → find_child k (children parent) ≡ some c
      → rank h ≡ rank k
      → IsNode q h m
      → total (replaced k m parent) + total c ≡ total parent + total m
  replaced-total {parent} {c} {q} k h m inner found same is =
      let child = Child-of inner found in
      let cs = erase_child k (children parent) in
      let free : Free (rank h) cs =
        subst (λ x. Free x cs) (sym same)
          (Free-erase k 0 (children parent) inner.sorted child.only) in
      rw
        (
          IsNode-key q h m is,
          total-inner (node (fields parent) (assign h m cs)) inner.internal,
          total-inner parent inner.internal,
        )
        (omega (arith, total-assign-Free h m cs free, total-erase k c (children parent) found))
