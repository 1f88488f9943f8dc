-- ===== src/RadixTree/Insert.antt =====
-- radix_tree.hpp: `append`, `prepend`, `insert` and `operator[]`. Each returns the new root with
-- the pointer that the source returns.
use collection_of_mini_proje.Prelude.{
  ℕ, zero, suc, ◌+◌, ◌-◌, Bool, true, false, ◌&&◌, Option, none, some, List, [], ◌∷◌, ◌++◌, ◌==◌,
  ltb, if◌then◌else◌,
}
use collection_of_mini_proje.RadixTree.Key.{Key, nul, radix_substr, radix_length, char_at, key_eq}
use collection_of_mini_proje.RadixTree.Node.{
  Node, node, nil, Result, ok, failed, Tree, Location, fields, children, is_leaf, new_node, assign,
  erase_child, attach, write_back, ancestors,
}
use collection_of_mini_proje.RadixTree.Search.{find_node, find}

-- The loop of `prepend` that counts the common bytes; `left` rounds may follow.
unfoldable pub count_loop : ℕ → ℕ → ℕ → Key → Key → ℕ → ℕ
count_loop zero count len2 key1 key2 depth = count
count_loop (suc left) count len2 key1 key2 depth =
    let next = count_loop left (count + 1) len2 key1 key2 depth in
    if ltb count len2 && (char_at key1 count == char_at key2 (count + depth)) then next else count

module _ {T : Type 0} where
  -- After a change of `top`, whose ancestors are `up`: the new root, and a pointer to `n` below
  -- `top`, from which the nodes `between` lead up to it.
  unfoldable pub placed : Node T → List (Node T) → Node T → List (Node T) → Node T × Location T
  placed n between top up = (write_back top up, (n, between ++ top ∷ ancestors top up))

  -- `val` is the key and the value of the new entry.
  unfoldable pub append : Location T → Key × T → Node T × Location T
  append (parent, up) val =
      let depth = (fields parent).depth + radix_length (fields parent).key in
      let len = radix_length val.0 - depth in
      let key_sub = radix_substr val.0 depth len in
      let leaf = new_node nul depth true (some val) nil in
      let node_cc = new_node nul (depth + len) true (some val) nil in
      let node_c = new_node key_sub depth false (some val) (assign nul node_cc nil) in
      if len == 0
      then placed leaf [] (attach leaf parent) up
      else placed node_cc (node_c ∷ []) (attach node_c parent) up

  -- The nodes that `prepend` makes. The parent has lost `n`; `a` takes its place. `whole` says that
  -- the new key ends at the cut.
  unfoldable pub cut :
      (whole : Bool) (count : ℕ) (key_a : Key) (depth_a : ℕ) (key_n : Key) (depth_n : ℕ)
      (key_b : Key)
      → (n parent : Node T) (up : List (Node T)) (val : Key × T) → Node T × Location T
  cut whole count key_a depth_a key_n depth_n key_b n parent up val =
      let n' = node (record (fields n) { depth = depth_n; key = key_n }) (children n) in
      let parent' = node (fields parent) (erase_child (fields n).key (children parent)) in
      let a = new_node key_a depth_a false none (assign key_n n' nil) in
      let leaf_b = new_node nul (depth_a + count) true (some val) nil in
      let leaf_c = new_node nul (radix_length val.0) true (some val) nil in
      let node_b = new_node key_b depth_n false none (assign nul leaf_c nil) in
      let a_b = attach leaf_b a in
      let a_c = attach node_b a in
      if whole
      then placed leaf_b (a_b ∷ []) (attach a_b parent') up
      else placed leaf_c (node_b ∷ a_c ∷ []) (attach a_c parent') up

  -- The part of `prepend` behind its assertion: the substrings and depths of these nodes.
  unfoldable pub split : ℕ → Node T → Node T → List (Node T) → Key × T → Node T × Location T
  split count n parent up val =
      let len1 = radix_length (fields n).key in
      let len2 = radix_length val.0 - (fields n).depth in
      let key_a = radix_substr (fields n).key 0 count in
      let depth_n = (fields n).depth + count in
      let key_n = radix_substr (fields n).key count (len1 - count) in
      let key_b = radix_substr val.0 depth_n (len2 - count) in
      cut (count == len2) count key_a (fields n).depth key_n depth_n key_b n parent up val

  unfoldable pub prepend : Location T → Key × T → Result (Node T × Location T)
  prepend (n, []) val = failed
  prepend (n, parent ∷ up) val =
      let len2 = radix_length val.0 - (fields n).depth in
      let count =
        count_loop (radix_length (fields n).key) 0 len2 (fields n).key val.0 (fields n).depth in
      if count == 0 then failed else ok (split count n parent up val)

  -- `new RadixTreeNode<K, T>` for the root
  abbrev pub new_root : Node T
  new_root = new_node nul 0 false none nil

  abbrev pub root_of : Tree T → Node T
  root_of t = elim t.root [ none ↦ new_root | some r ↦ r ]

  abbrev pub grown : ℕ → Node T × Location T → Tree T × Location T × Bool
  grown size (r, l) = (record { size = size + 1; root = some r }, l, true)

  -- The part of `insert` behind the call of `find_node`, which returned `l`.
  unfoldable pub insert_at : ℕ → Node T → Location T → Key × T → Result (Tree T × Location T × Bool)
  insert_at size root l val =
      let n = l.0 in
      let len = radix_length (fields n).key in
      let key_sub = radix_substr val.0 (fields n).depth len in
      if is_leaf n then ok (record { size = size; root = some root }, l, false) else elim l.1 [
        | [] ↦ ok (grown size (append l val))
        | p ∷ up ↦
            if key_eq key_sub (fields n).key
            then ok (grown size (append l val))
            else elim (prepend l val) [ failed ↦ failed | ok r ↦ ok (grown size r) ]
      ]

  unfoldable pub insert : Key × T → Tree T → Result (Tree T × Location T × Bool)
  insert val t = insert_at t.size (root_of t) (find_node val.0 (root_of t) 0 []) val

  -- `tree[key] = v`: the reference that `operator[]` returns, then written through. `d` is `T()`.
  unfoldable pub at_key : T → Key → Tree T → Result (Tree T × Location T)
  at_key d key t = elim (find key t) [
    | some l ↦ ok (t, l)
    | none ↦ elim (insert (key, d) t) [
      | failed ↦ failed
      | ok (t', l, done) ↦ if done then ok (t', l) else failed
    ]
  ]

  unfoldable pub store : T → Location T → Node T
  store v (node f cs, up) =
      let value : Option (Key × T) = elim f.value [ none ↦ none | some (k, w) ↦ some (k, v) ] in
      write_back (node (record f { value = value }) cs) up

  unfoldable pub set_at : T → Key → T → Tree T → Result (Tree T)
  set_at d key v t = elim (at_key d key t) [
    | failed ↦ failed
    | ok (t', l) ↦ ok (record t' { root = some (store v l) })
  ]
