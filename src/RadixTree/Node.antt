-- ===== src/RadixTree/Node.antt =====
-- `RadixTreeNode` and its map of children. A node owns its children, so it is a tree; `m_parent`
-- is not a field: a pointer to a node is a `Location`, the node with its ancestors, the parent
-- first. `std::map` is a list of pairs that its operations keep sorted.
use Prim.Native.Nat.{Ordering}
use collection_of_mini_proje.Prelude.{
  ℕ, suc, Bool, true, false, Option, none, some, List, [], ◌∷◌, ◌==◌,
}
use collection_of_mini_proje.RadixTree.Key.{Key, key_cmp}

-- The members but the children and the parent; `value` is `*m_value`.
pub record Fields (T : Type 0) : Type 0 where
  pub key : Key
  pub depth : ℕ
  pub is_leaf : Bool
  pub value : Option (Key × T)

mutual
  pub data Node (T : Type 0) : Type 0 where
    node : Fields T → Children T → Node T

  pub data Children (T : Type 0) : Type 0 where
    nil : Children T
    cons : Key → Node T → Children T → Children T

-- The last call on an object of the tree can fail an assertion or follow a null pointer.
pub data Result (A : Type 0) : Type 0 where
  ok : A → Result A
  failed : Result A

-- A tree that has been cleared or is new has no root.
pub record Tree (T : Type 0) : Type 0 where
  pub size : ℕ
  pub root : Option (Node T)

abbrev pub Location : Type 0 → Type 0
Location T = Node T × List (Node T)

module _ {T : Type 0} where
  abbrev pub fields : Node T → Fields T
  fields (node f cs) = f

  abbrev pub children : Node T → Children T
  children (node f cs) = cs

  abbrev pub is_leaf : Node T → Bool
  is_leaf n = (fields n).is_leaf

  abbrev pub key_of : Node T → Key
  key_of n = (fields n).key

  -- The constructor with a value, and the one without, with the members that every caller sets.
  abbrev pub new_node : Key → ℕ → Bool → Option (Key × T) → Children T → Node T
  new_node k d leaf v cs = node (record { key = k; depth = d; is_leaf = leaf; value = v }) cs

  abbrev pub is_empty : Children T → Bool
  is_empty nil = true
  is_empty (cons k n cs) = false

  abbrev pub count : Children T → ℕ
  count nil = 0
  count (cons k n cs) = suc (count cs)

  -- `m_children.find(k)->second`
  unfoldable pub find_child : Key → Children T → Option (Node T)
  find_child k nil = none
  find_child k (cons j n cs) = elim (key_cmp k j) [
    | Ordering.lt ↦ none
    | Ordering.eq ↦ some n
    | Ordering.gt ↦ find_child k cs
  ]

  -- `m_children[k] = n`
  unfoldable pub assign : Key → Node T → Children T → Children T
  assign k n nil = cons k n nil
  assign k n (cons j m cs) = elim (key_cmp k j) [
    | Ordering.lt ↦ cons k n (cons j m cs)
    | Ordering.eq ↦ cons j n cs
    | Ordering.gt ↦ cons j m (assign k n cs)
  ]

  -- `m_children.erase(k)`
  unfoldable pub erase_child : Key → Children T → Children T
  erase_child k nil = nil
  erase_child k (cons j m cs) = elim (key_cmp k j) [
    | Ordering.lt ↦ cons j m cs
    | Ordering.eq ↦ cs
    | Ordering.gt ↦ cons j m (erase_child k cs)
  ]

  -- `parent->m_children[n->m_key]` leads to the node `n` after a change of `n`.
  unfoldable pub attach : Node T → Node T → Node T
  attach n (node f cs) = node f (assign (key_of n) n cs)

  -- The root, and the ancestors of `n`, after a change of `n`.
  unfoldable pub write_back : Node T → List (Node T) → Node T
  write_back n [] = n
  write_back n (a ∷ up) = write_back (attach n a) up

  unfoldable pub ancestors : Node T → List (Node T) → List (Node T)
  ancestors n [] = []
  ancestors n (a ∷ up) = attach n a ∷ ancestors (attach n a) up

  -- The constructor, `size`, `empty` and `clear` of the tree.
  unfoldable pub new_tree : Tree T
  new_tree = record { size = 0; root = none }

  unfoldable pub empty : Tree T → Bool
  empty t = t.size == 0

  unfoldable pub clear : Tree T → Tree T
  clear t = record { size = 0; root = none }
