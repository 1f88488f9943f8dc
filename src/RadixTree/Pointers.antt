-- ===== src/RadixTree/Pointers.antt =====
-- The pointers that a change of the tree returns: they stand in the new tree.
use collection_of_mini_proje.Prelude.{◌≡◌, refl, ap, ◌∙◌, some, List, ◌+◌, length, arith}
use collection_of_mini_proje.RadixTree.Key.{Key}
use collection_of_mini_proje.RadixTree.Order.{key_cmp_refl}
use collection_of_mini_proje.RadixTree.Node.{
  Node, Children, nil, cons, children, find_child, assign, attach, write_back, ancestors,
}
use collection_of_mini_proje.RadixTree.Spec.{IsNode, IsRoot}
use collection_of_mini_proje.RadixTree.Map.{Only}
use collection_of_mini_proje.RadixTree.Locations.{IsInner, IsLoc, top, below}
use collection_of_mini_proje.RadixTree.Rebuild.{
  Fits, Child-of, attach-Fits, attach-Attached, fields-attach, children-attach, IsNode-key,
}

module _ {T : Type 0} where
  pub find_child-assign :
      (k : Key) (n : Node T) (cs : Children T) → find_child k (assign k n cs) ≡ some n
  unfolding find_child assign
  find_child-assign k n nil = rw (key_cmp_refl k, find_child)
  find_child-assign k n (cons j c cs) = ground (arith, find_child-assign k n cs, key_cmp_refl k)

  -- A node with a new or changed child, in which that child is found.
  pub record Holds (q k : Key) (n parent' : Node T) : Type 0 where
    pub inner : IsInner q parent'
    pub found : find_child k (children parent') ≡ some n

  pub attach-Holds :
      (q k : Key) (n parent : Node T)
      → IsInner q parent
      → Only k (children parent)
      → IsNode q k n
      → Holds q k n (attach n parent)
  attach-Holds q k n parent i only is =
      let a = attach-Attached q k n parent i only is in
      record {
        inner = record {
          full = ap (λ f. f.depth + length f.key) (fields-attach n parent) ∙ i.full;
          internal = ap (λ f. f.is_leaf) (fields-attach n parent) ∙ i.internal;
          sorted = a.sorted;
          nodes = a.nodes;
        };
        found =
            rw (children-attach n parent, IsNode-key q k n is)
              (find_child-assign k n (children parent));
      }

  -- The changed node has its place in the new tree.
  pub write_back-IsLoc :
      {root : Node T} {q : Key} {n : Node T} {up : List (Node T)} (n' : Node T)
      (loc : IsLoc root q n up)
      → IsRoot root
      → Fits loc n'
      → IsLoc (write_back n' up) q n' (ancestors n' up)
  unfolding write_back ancestors
  write_back-IsLoc n' (top e) r fits = top refl
  write_back-IsLoc {root} n' (below {q} {parent = parent} k loc inner found e) r fits =
      let child = Child-of inner found in
      let h = attach-Holds q k n' parent inner child.only fits in
      below k
        (write_back-IsLoc (attach n' parent) loc r (attach-Fits loc k n' r inner child.only fits))
        h.inner h.found e
