-- ===== src/RadixTree/Prepend/Pointer.antt =====
-- The pointer that `prepend` returns leads to the new entry.
use collection_of_mini_proje.Prelude.{
  ◌≡◌, ◌≢◌, ◌<◌, ◌+◌, refl, ap, sym, some, List, [], ◌∷◌, ◌++◌, length, append-nil, append_assoc,
}
use collection_of_mini_proje.RadixTree.Key.{Key}
use collection_of_mini_proje.RadixTree.Order.{rank}
use collection_of_mini_proje.RadixTree.Node.{
  Node, nil, cons, children, key_of, find_child, write_back, ancestors, assign,
}
use collection_of_mini_proje.RadixTree.Insert.{cut, placed}
use collection_of_mini_proje.RadixTree.Spec.{IsNode, IsRoot}
use collection_of_mini_proje.RadixTree.Map.{Free-Only}
use collection_of_mini_proje.RadixTree.Locate.{is_nil}
use collection_of_mini_proje.RadixTree.Locations.{IsInner, IsLoc, below, Found}
use collection_of_mini_proje.RadixTree.Rebuild.{attach_lem}
use collection_of_mini_proje.RadixTree.Pointers.{
  Holds, attach-Holds, find_child-assign, write_back-IsLoc,
}
use collection_of_mini_proje.RadixTree.Leads.{leaf-Found, inner-Found}
use collection_of_mini_proje.RadixTree.Prepend.Upper.{lower, upper, upper-IsInner}
use collection_of_mini_proje.RadixTree.Prepend.Place.{replaced, replace-Fits}
use collection_of_mini_proje.RadixTree.Prepend.Entry.{
  new_child, new_leaf, above, new_child-NewChild,
}

module _ {T : Type 0} {root parent c : Node T} {q : Key} {up : List (Node T)} (h k2 : Key) (v : T)
    (r : IsRoot root) (loc : IsLoc root q parent up) (inner : IsInner q parent)
    (found : find_child (h ++ k2) (children parent) ≡ some c) (key : key_of c ≡ h ++ k2)
    (low : IsNode (q ++ h) k2 (lower (length q + length h) k2 c)) (pos : 0 < rank (h ++ k2))
    (same : rank h ≡ rank (h ++ k2)) where
  abbrev put_in : Key → Node T
  put_in r2 = replaced (h ++ k2) (above q h k2 r2 v c) parent

  -- The new node above the cut, and the new child below it.
  above-IsLoc :
      (r2 : Key)
      → IsNode q h (above q h k2 r2 v c)
      → rank k2 ≢ rank r2
      → IsLoc
          (write_back (put_in r2) up)
          (q ++ h)
          (above q h k2 r2 v c)
          (put_in r2 ∷ ancestors (put_in r2) up)
        × Holds (q ++ h) r2 (new_child q h r2 v) (above q h k2 r2 v c)
  above-IsLoc r2 is apart =
      let (fits, holds) =
        replace-Fits (h ++ k2) h (above q h k2 r2 v c) r loc inner found pos same is in
      let a = upper h (length q) k2 (lower (length q + length h) k2 c) in
      (
        below h (write_back-IsLoc (put_in r2) loc r fits) holds.inner holds.found refl,
        attach-Holds (q ++ h) r2 (new_child q h r2 v) a
            (upper-IsInner q h k2 (length q) (lower (length q + length h) k2 c) refl low)
            (Free-Only r2 (cons k2 (lower (length q + length h) k2 c) nil) (apart, tt))
            (new_child-NewChild q h r2 v).is,
      )

  abbrev cut_at : Key → Node T × (Node T × List (Node T))
  cut_at r2 =
      cut (is_nil r2) (length h) h (length q) k2 (length q + length h) r2 c parent up
        (q ++ (h ++ r2), v)

  pub cut-Found :
      (r2 : Key)
      → IsNode q h (above q h k2 r2 v c)
      → rank k2 ≢ rank r2
      → Found (cut_at r2).0 (q ++ (h ++ r2)) (cut_at r2).1
  unfolding cut placed assign
  cut-Found [] is apart =
      let (at, holds) = above-IsLoc [] is apart in
      rw (key, attach_lem (above q h k2 [] v c))
        (leaf-Found at holds refl (ap (λ x. q ++ x) (append-nil h)))
  cut-Found (x ∷ r2) is apart =
      let (at, holds) = above-IsLoc (x ∷ r2) is apart in
      rw (key, attach_lem (above q h k2 (x ∷ r2) v c))
        (inner-Found (x ∷ r2) at holds (new_child-NewChild q h (x ∷ r2) v).is refl
          (find_child-assign [] (new_leaf (q ++ (h ++ x ∷ r2)) (length (q ++ (h ++ x ∷ r2))) v) nil)
          refl (sym (append_assoc q h (x ∷ r2))))
