-- ===== src/RadixTree/Iterate.antt =====
-- radix_tree_iterator.hpp, and `begin` of radix_tree.hpp. The null iterator is `none`.
use Prim.Native.Nat.{Ordering}
use collection_of_mini_proje.Prelude.{Option, none, some, List, [], ◌∷◌, if◌then◌else◌}
use collection_of_mini_proje.RadixTree.Key.{Key, key_cmp}
use collection_of_mini_proje.RadixTree.Node.{
  Node, node, Children, nil, cons, Result, ok, failed, Tree, Location, fields, children,
}

module _ {T : Type 0} where
  -- The child at `k` and those behind it, in the order of the map.
  unfoldable pub from_child : Key → Children T → Children T
  from_child k nil = nil
  from_child k (cons j n cs) = elim (key_cmp k j) [
    | Ordering.lt ↦ nil
    | Ordering.eq ↦ cons j n cs
    | Ordering.gt ↦ from_child k cs
  ]

  -- `descend`, and the private `begin`, which is the same function.
  unfoldable mutual
    pub descend : Node T → List (Node T) → Result (Location T)
    descend (node f cs) up =
        let below = descend_first cs (node f cs ∷ up) in
        if f.is_leaf then ok (node f cs, up) else below

    pub descend_first : Children T → List (Node T) → Result (Location T)
    descend_first nil up = failed
    descend_first (cons k c cs) up = descend c up

  unfoldable pub increment : Node T → List (Node T) → Result (Option (Location T))
  increment n [] = ok none
  increment n (parent ∷ up) =
      let above = increment parent up in
      elim (from_child (fields n).key (children parent)) [
        | nil ↦ failed
        | cons k it nil ↦ above
        | cons k it (cons j next cs) ↦ elim (descend next (parent ∷ up)) [
          | failed ↦ failed
          | ok l ↦ ok (some l)
        ]
      ]

  -- `operator++`
  unfoldable pub advance : Option (Location T) → Result (Option (Location T))
  advance none = ok none
  advance (some (n, up)) = increment n up

  -- `operator++(int)`: the iterator that is returned, and the one that is left.
  unfoldable pub post_advance :
      Option (Location T) → Result (Option (Location T) × Option (Location T))
  post_advance it = elim (advance it) [ failed ↦ failed | ok next ↦ ok (it, next) ]

  -- `begin()`
  unfoldable pub begin : Tree T → Result (Option (Location T))
  begin t = elim t.root [
    | none ↦ ok none
    | some root ↦ elim (descend root []) [ failed ↦ failed | ok l ↦ ok (some l) ]
  ]

  -- `operator*` and `operator->`: `none` is a null pointer.
  unfoldable pub pointee : Location T → Option (Key × T)
  pointee (n, up) = (fields n).value
