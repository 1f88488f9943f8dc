-- ===== src/RadixTree/Leads.antt =====
-- The pointer that `append` returns leads to the new entry.
use collection_of_mini_proje.Prelude.{
  ◌≡◌, inl, inr, refl, ap, subst, ◌∙◌, true, false, some, List, [], ◌∷◌, ◌++◌, ◌+◌, length,
  Bool-cases, append-nil,
}
use collection_of_mini_proje.RadixTree.Key.{Key, nul}
use collection_of_mini_proje.RadixTree.Order.{rank}
use collection_of_mini_proje.RadixTree.Node.{
  Node, nil, children, is_leaf, new_node, find_child, assign, attach, write_back, ancestors,
}
use collection_of_mini_proje.RadixTree.Insert.{append, placed}
use collection_of_mini_proje.RadixTree.Spec.{IsNode, IsRoot}
use collection_of_mini_proje.RadixTree.Map.{Free, Free-Only}
use collection_of_mini_proje.RadixTree.Locate.{is_nil, is_nil_sound}
use collection_of_mini_proje.RadixTree.Locations.{
  IsInner, IsLoc, below, Found, at_leaf, IsNode-IsInner,
}
use collection_of_mini_proje.RadixTree.Rebuild.{attach-Fits}
use collection_of_mini_proje.RadixTree.NewChild.{leaf-NewChild, inner-NewChild}
use collection_of_mini_proje.RadixTree.Append.{length-++-sub, substr-rest, is_nil-length, is_nil-ne}
use collection_of_mini_proje.RadixTree.Pointers.{
  Holds, attach-Holds, find_child-assign, write_back-IsLoc,
}

module _ {T : Type 0} where
  -- A leaf directly below a node of the tree.
  pub leaf-Found :
      {root parent c : Node T} {q key : Key} {up : List (Node T)}
      → IsLoc root q parent up
      → Holds q [] c parent
      → is_leaf c ≡ true
      → key ≡ q
      → Found root key (c, parent ∷ up)
  leaf-Found {q = q} loc h leaf e = at_leaf q loc h.inner h.found e leaf

  -- A leaf below a new node with the rest of the key.
  pub inner-Found :
      {root parent m c : Node T} {q key : Key} {up : List (Node T)} (rest : Key)
      → IsLoc root q parent up
      → Holds q rest m parent
      → IsNode q rest m
      → is_leaf m ≡ false
      → find_child [] (children m) ≡ some c
      → is_leaf c ≡ true
      → key ≡ q ++ rest
      → Found root key (c, m ∷ parent ∷ up)
  inner-Found {m = m} {q = q} rest loc h is inner found leaf e =
      at_leaf (q ++ rest) (below rest loc h.inner h.found refl) (IsNode-IsInner q rest m is inner)
        found e leaf

  -- A node with a new child has its place in the new tree.
  pub attached-IsLoc :
      {root n : Node T} {q : Key} {up : List (Node T)} (rest : Key) (c : Node T)
      → IsRoot root
      → IsLoc root q n up
      → IsInner q n
      → Free (rank rest) (children n)
      → IsNode q rest c
      → IsLoc (write_back (attach c n) up) q (attach c n) (ancestors (attach c n) up)
        × Holds q rest c (attach c n)
  attached-IsLoc {n = n} {q = q} rest c r loc inner free is =
      let only = Free-Only rest (children n) free in
      (
        write_back-IsLoc (attach c n) loc r (attach-Fits loc rest c r inner only is),
        attach-Holds q rest c n inner only is,
      )

  pub append-Found :
      {root n : Node T} {q : Key} {up : List (Node T)} (rest : Key) (v : T)
      → IsRoot root
      → IsLoc root q n up
      → IsInner q n
      → Free (rank rest) (children n)
      → Found (append (n, up) (q ++ rest, v)).0 (q ++ rest) (append (n, up) (q ++ rest, v)).1
  unfolding append placed
  append-Found {root} {n} {q} {up} rest v r loc inner free =
      rw (inner.full, length-++-sub q rest, is_nil-length)
        (elim (Bool-cases (is_nil rest)) [
          | inl none_left ↦
              let e = is_nil_sound rest none_left in
              let whole : q ++ rest ≡ q = ap (λ x. q ++ x) e ∙ append-nil q in
              let new = leaf-NewChild q (length q) (q ++ rest) v refl whole in
              let (loc', h) =
                attached-IsLoc [] (leaf_at (q ++ rest)) r loc inner
                  (subst (λ x. Free (rank x) (children n)) e free) new.is in
              rw none_left (leaf-Found loc' h refl whole)
          | inr some_left ↦
              let new =
                inner-NewChild q rest (length q) (length q + length rest) (q ++ rest) v
                  (some (q ++ rest, v)) (is_nil-ne rest some_left) refl refl refl in
              let (loc', h) = attached-IsLoc rest (inner_at rest) r loc inner free new.is in
              rw (some_left, substr-rest q rest)
                (inner-Found rest loc' h new.is refl (find_child-assign [] (cc_at rest) nil) refl
                  refl)
        ])
    where
      leaf_at : Key → Node T
      leaf_at key = new_node nul (length q) true (some (key, v)) nil

      cc_at : Key → Node T
      cc_at rest = new_node nul (length q + length rest) true (some (q ++ rest, v)) nil

      inner_at : Key → Node T
      inner_at rest =
          new_node rest (length q) false (some (q ++ rest, v)) (assign nul (cc_at rest) nil)
