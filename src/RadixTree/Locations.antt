-- ===== src/RadixTree/Locations.antt =====
-- Where a node stands in a tree, and the three results of `find_node`.
use collection_of_mini_proje.Prelude.{
  suc, ◌+◌, ◌≡◌, ◌≢◌, inl, inr, true, false, some, List, [], ◌∷◌, ◌++◌, length, length-append,
}
use collection_of_mini_proje.RadixTree.Key.{Key}
use collection_of_mini_proje.RadixTree.Order.{rank, prefix, key_cmp_refl, key_cmp-gt}
use collection_of_mini_proje.RadixTree.Node.{
  Node, node, Children, cons, Location, fields, children, is_leaf, find_child,
}
use collection_of_mini_proje.RadixTree.Spec.{Sorted, IsNode, AreNodes, IsRoot}
use collection_of_mini_proje.RadixTree.Map.{Free}
use collection_of_mini_proje.RadixTree.Child.{find_child-rank}

module _ {T : Type 0} where
  -- A node that is no leaf, whose path with its own key is `q`.
  pub record IsInner (q : Key) (n : Node T) : Type 0 where
    pub full : (fields n).depth + length (fields n).key ≡ length q
    pub internal : is_leaf n ≡ false
    pub sorted : Sorted 0 (children n)
    pub nodes : AreNodes q (children n)

  -- The ancestors `up` of `n` lead to the root, by keys that make up `q`.
  pub data IsLoc (root : Node T) : Key → Node T → List (Node T) → Type 0 where
    top : {n : Node T} → n ≡ root → IsLoc root [] n []
    below :
        {q q' : Key} {parent c : Node T} {up : List (Node T)} (k : Key)
        → IsLoc root q parent up
        → IsInner q parent
        → find_child k (children parent) ≡ some c
        → q' ≡ q ++ k
        → IsLoc root q' c (parent ∷ up)

  -- The three results of `find_node`: the leaf of the key; a node at which no child shares the
  -- next byte of the key, if any; a child whose key is not a prefix of the rest but shares a byte.
  pub data Found (root : Node T) (key : Key) : Location T → Type 0 where
    at_leaf :
        {c parent : Node T} {up : List (Node T)} (q : Key)
        → IsLoc root q parent up
        → IsInner q parent
        → find_child [] (children parent) ≡ some c
        → key ≡ q
        → is_leaf c ≡ true
        → Found root key (c, parent ∷ up)
    stuck :
        {n : Node T} {up : List (Node T)} (q rest : Key)
        → IsLoc root q n up
        → IsInner q n
        → key ≡ q ++ rest
        → Free (rank rest) (children n)
        → Found root key (n, up)
    partial :
        {c parent : Node T} {up : List (Node T)} (q k rest : Key)
        → IsLoc root q parent up
        → IsInner q parent
        → find_child k (children parent) ≡ some c
        → is_leaf c ≡ false
        → key ≡ q ++ rest
        → rank k ≡ rank rest
        → prefix k rest ≡ false
        → Found root key (c, parent ∷ up)

  pub IsNode-IsInner :
      (p k : Key) (n : Node T) → IsNode p k n → is_leaf n ≡ false → IsInner (p ++ k) n
  IsNode-IsInner p k (node f cs) (key, depth, kind, sorted, nodes) h = record {
    full = rw (key, depth, length-append p k);
    internal = h;
    sorted = sorted;
    nodes = nodes;
  }

  pub IsRoot-IsInner : (n : Node T) → IsRoot n → IsInner [] n
  IsRoot-IsInner n r = record {
    full = rw (r.key, r.depth);
    internal = r.internal;
    sorted = r.sorted;
    nodes = r.nodes;
  }

  pub find_child-tail :
      (j k : Key) (c n : Node T) (cs : Children T)
      → Sorted (suc (rank k)) cs
      → find_child j cs ≡ some n
      → find_child j (cons k c cs) ≡ some n
  unfolding find_child
  find_child-tail j k c n cs s h =
      rw (key_cmp-gt j k (find_child-rank j n (suc (rank k)) cs s h), find_child) h

  pub find_child-head :
      (k : Key) (c : Node T) (cs : Children T) → find_child k (cons k c cs) ≡ some c
  unfolding find_child
  find_child-head k c cs = rw (key_cmp_refl k, find_child)

  pub leaf-key : (p k : Key) (n : Node T) → IsNode p k n → is_leaf n ≡ true → k ≡ []
  leaf-key p k (node f cs) (_, _, kind, _, _) h = elim kind [
    | inl l ↦ l.no_key
    | inr i ↦ cc (i.internal)
  ]

  pub internal-key : (p k : Key) (n : Node T) → IsNode p k n → is_leaf n ≡ false → k ≢ []
  internal-key p k (node f cs) (_, _, kind, _, _) h = elim kind [
    | inl l ↦ cc (l.leaf)
    | inr i ↦ i.has_key
  ]
