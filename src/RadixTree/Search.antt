-- ===== src/RadixTree/Search.antt =====
-- radix_tree.hpp: `find_node` and what only reads the tree.
use collection_of_mini_proje.Prelude.{
  ℕ, ◌+◌, ◌-◌, not, ◌&&◌, Option, none, some, List, [], ◌∷◌, ◌++◌, ◌==◌, if◌then◌else◌,
}
use collection_of_mini_proje.RadixTree.Key.{Key, nul, radix_substr, radix_length, char_at, key_eq}
use collection_of_mini_proje.RadixTree.Node.{
  Node, node, Children, nil, cons, Result, ok, failed, Tree, Location, fields, children, is_leaf,
  is_empty, find_child,
}

module _ {T : Type 0} where
  -- `scan` is the loop over the children of `self`.
  unfoldable mutual
    pub find_node : Key → Node T → ℕ → List (Node T) → Location T
    find_node key (node f cs) depth up =
        let found = scan key cs depth (node f cs) up in
        if is_empty cs then (node f cs, up) else found

    pub scan : Key → Children T → ℕ → Node T → List (Node T) → Location T
    scan key nil depth self up = (self, up)
    scan key (cons k c cs) depth self up =
        let next = scan key cs depth self up in
        let inside = find_node key c (depth + radix_length k) (self ∷ up) in
        let len_key = radix_length key - depth in
        if len_key == 0
        then (if is_leaf c then (c, self ∷ up) else next)
        else if not (is_leaf c) && (char_at key depth == char_at k 0)
        then (if key_eq (radix_substr key depth (radix_length k)) k then inside else (c, self ∷ up))
        else next

  -- `none` is the null iterator `end()`.
  unfoldable pub find : Key → Tree T → Option (Location T)
  find key t = elim t.root [
    | none ↦ none
    | some root ↦ let (n, up) = find_node key root 0 [] in if is_leaf n then some (n, up) else none
  ]

  -- The walk of `longest_match` towards the root.
  unfoldable pub climb : List (Node T) → Option (Location T)
  climb [] = none
  climb (n ∷ up) =
      let rest = climb up in
      elim (find_child nul (children n)) [
        | none ↦ rest
        | some c ↦ if is_leaf c then some (c, n ∷ up) else rest
      ]

  unfoldable pub longest_match : Key → Tree T → Option (Location T)
  longest_match key t = elim t.root [
    | none ↦ none
    | some root ↦
        let (n, up) = find_node key root 0 [] in
        let key_sub = radix_substr key (fields n).depth (radix_length (fields n).key) in
        if is_leaf n
        then some (n, up)
        else climb (if not (key_eq key_sub (fields n).key) then up else n ∷ up)
  ]

  -- The private `greedy_match`: the leaves below a node.
  unfoldable mutual
    pub greedy : Node T → List (Node T)
    greedy (node f cs) =
        let below = greedy_children cs in if f.is_leaf then node f cs ∷ [] else below

    pub greedy_children : Children T → List (Node T)
    greedy_children nil = []
    greedy_children (cons k c cs) = greedy c ++ greedy_children cs

  -- `if (node->m_is_leaf) node = node->m_parent;`
  unfoldable pub internal : Location T → Result (Node T)
  internal (n, []) = if is_leaf n then failed else ok n
  internal (n, p ∷ up) = ok (if is_leaf n then p else n)

  unfoldable pub prefix_match : Key → Tree T → Result (List (Node T))
  prefix_match key t = elim t.root [
    | none ↦ ok []
    | some root ↦ elim (internal (find_node key root 0 [])) [
      | failed ↦ failed
      | ok n ↦
          let len = radix_length key - (fields n).depth in
          let key_sub1 = radix_substr key (fields n).depth len in
          let key_sub2 = radix_substr (fields n).key 0 len in
          ok (if not (key_eq key_sub1 key_sub2) then [] else greedy n)
    ]
  ]

  unfoldable pub greedy_match : Key → Tree T → Result (List (Node T))
  greedy_match key t = elim t.root [
    | none ↦ ok []
    | some root ↦ elim (internal (find_node key root 0 [])) [
      | failed ↦ failed
      | ok n ↦ ok (greedy n)
    ]
  ]
