-- ===== src/RadixTree/Erase.antt =====
-- radix_tree.hpp: `erase`.
use collection_of_mini_proje.Prelude.{
  ◌-◌, Bool, true, false, none, some, List, [], ◌∷◌, ltb, if◌then◌else◌,
}
use collection_of_mini_proje.RadixTree.Key.{Key, nul, radix_join}
use collection_of_mini_proje.RadixTree.Node.{
  Node, node, nil, cons, Result, ok, failed, Tree, Location, fields, children, is_leaf, is_empty,
  count, assign, erase_child, write_back,
}
use collection_of_mini_proje.RadixTree.Search.{find_node}
use collection_of_mini_proje.RadixTree.Iterate.{pointee}

module _ {T : Type 0} where
  -- `grandparent`, below `parent` and `up`, is merged with its last child.
  unfoldable pub merge : Node T → Key → Node T → Node T → List (Node T) → Node T
  merge grandparent k uncle parent up =
      let key' = radix_join (fields grandparent).key (fields uncle).key in
      let uncle' =
        node (record (fields uncle) { depth = (fields grandparent).depth; key = key' })
          (children uncle) in
      let rest = erase_child (fields grandparent).key (children parent) in
      write_back (node (fields parent) (assign key' uncle' rest)) up

  -- The end of `erase`, from the test of `grandparent == m_root` on.
  unfoldable pub shrink : Node T → List (Node T) → Node T
  shrink grandparent [] = grandparent
  shrink grandparent (parent ∷ up) = elim (children grandparent) [
    | cons k uncle nil ↦
        if is_leaf uncle
        then write_back grandparent (parent ∷ up)
        else merge grandparent k uncle parent up
    | _ ↦ write_back grandparent (parent ∷ up)
  ]

  -- The middle of `erase`: `parent` has lost its leaf. The result is the new root.
  unfoldable pub prune : Node T → List (Node T) → Node T
  prune parent [] = parent
  prune parent (grandparent ∷ up) =
      if ltb 1 (count (children parent))
      then write_back parent (grandparent ∷ up)
      else if is_empty (children parent)
      then shrink
          (node (fields grandparent) (erase_child (fields parent).key (children grandparent))) up
      else shrink parent (grandparent ∷ up)

  unfoldable pub erase : Key → Tree T → Result (Tree T × Bool)
  erase key t = elim t.root [
    | none ↦ ok (t, false)
    | some root ↦
        let (child, above) = find_node key root 0 [] in
        if is_leaf child
        then elim above [
          | [] ↦ failed
          | parent ∷ up ↦
              let parent' = node (fields parent) (erase_child nul (children parent)) in
              ok (record { size = t.size - 1; root = some (prune parent' up) }, true)
        ]
        else ok (t, false)
  ]

  -- `erase` of an iterator.
  unfoldable pub erase_iterator : Location T → Tree T → Result (Tree T × Bool)
  erase_iterator it t = elim (pointee it) [ none ↦ failed | some (key, v) ↦ erase key t ]
