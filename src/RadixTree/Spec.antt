-- ===== src/RadixTree/Spec.antt =====
-- What a radix tree stands for: the list of its keys and values in the order of the tree, and the
-- invariant that its nodes keep.
use collection_of_mini_proje.Prelude.{
  ℕ, suc, ◌≤◌, ◌<◌, ◌≡◌, ◌≢◌, ◌⊎◌, Bool, true, false, Option, none, some, List, [], ◌∷◌, ◌++◌, ◌==◌,
  length, drop, if◌then◌else◌,
}
use collection_of_mini_proje.RadixTree.Key.{Key, key_eq}
use collection_of_mini_proje.RadixTree.Order.{rank, hits}
use collection_of_mini_proje.RadixTree.Node.{
  Fields, Node, node, Children, nil, cons, Tree, count, is_leaf, fields, children,
}

module _ {T : Type 0} where
  abbrev pub under : Key → List (Key × T) → List (Key × T)
  under k [] = []
  under k ((j, v) ∷ es) = (k ++ j, v) ∷ under k es

  abbrev pub value_of : Fields T → Option T
  value_of f = elim f.value [ none ↦ none | some (k, v) ↦ some v ]

  abbrev pub entry_of : Fields T → List (Key × T)
  entry_of f = elim f.value [ none ↦ [] | some (k, v) ↦ ([], v) ∷ [] ]

  -- The entries below a node, with the keys that the edges spell.
  unfoldable mutual
    pub contents : Node T → List (Key × T)
    contents (node f cs) = if f.is_leaf then entry_of f else contents_of cs

    pub contents_of : Children T → List (Key × T)
    contents_of nil = []
    contents_of (cons k c cs) = under k (contents c) ++ contents_of cs

  unfoldable pub entries : Tree T → List (Key × T)
  unfolding contents
  entries t = elim t.root [ none ↦ [] | some n ↦ contents n ]

  -- The value of the first entry with a key.
  unfoldable pub lookup : Key → List (Key × T) → Option T
  lookup k [] = none
  lookup k ((j, v) ∷ es) = if key_eq j k then some v else lookup k es

  -- The search by first bytes: in a tree that is well formed it finds what `lookup` finds.
  unfoldable mutual
    pub get : Key → Node T → Option T
    get r (node f cs) = if f.is_leaf then value_of f else get_in r cs

    pub get_in : Key → Children T → Option T
    get_in r nil = none
    get_in r (cons k c cs) =
        let inside = get (drop (length k) r) c in
        let next = get_in r cs in if hits k r then inside else next

  -- The children are sorted by their first bytes, which are different and at least `b`.
  abbrev pub Sorted : ℕ → Children T → Type 0
  Sorted b nil = Unit
  Sorted b (cons k c cs) = (b ≤ rank k) × Sorted (suc (rank k)) cs

  -- The first child is a leaf: the empty key comes first.
  abbrev pub leaf_first : Children T → Bool
  leaf_first nil = false
  leaf_first (cons k c cs) = rank k == 0

  -- At least two children, or a leaf.
  abbrev pub Compact : Children T → Type 0
  Compact cs = (1 < count cs) ⊎ (leaf_first cs ≡ true)

  -- A leaf holds the whole key with its value.
  pub record IsLeaf (p k : Key) (f : Fields T) (cs : Children T) : Type 0 where
    pub leaf : f.is_leaf ≡ true
    pub no_key : k ≡ []
    pub no_children : cs ≡ nil
    pub v : T
    pub holds : f.value ≡ some (p, v)

  -- Any other node is below an edge with a key, and has two children or a leaf.
  pub record IsInternal (k : Key) (f : Fields T) (cs : Children T) : Type 0 where
    pub internal : f.is_leaf ≡ false
    pub has_key : k ≢ []
    pub compact : Compact cs

  -- A node under the key `k`, whose parent's path is `p`, and the nodes below it.
  abbrev mutual
    pub IsNode : Key → Key → Node T → Type 0
    IsNode p k (node f cs) =
        (f.key ≡ k)
        × (f.depth ≡ length p)
        × (IsLeaf p k f cs ⊎ IsInternal k f cs)
        × Sorted 0 cs
        × AreNodes (p ++ k) cs

    pub AreNodes : Key → Children T → Type 0
    AreNodes q nil = Unit
    AreNodes q (cons k c cs) = IsNode q k c × AreNodes q cs

  -- The root: no key, and any number of children.
  pub record IsRoot (n : Node T) : Type 0 where
    pub key : (fields n).key ≡ []
    pub depth : (fields n).depth ≡ 0
    pub internal : is_leaf n ≡ false
    pub sorted : Sorted 0 (children n)
    pub nodes : AreNodes [] (children n)

  -- A tree: no root, or a root, and the number of entries.
  pub data IsTree : Tree T → Type 0 where
    no_root : {t : Tree T} → t.root ≡ none → t.size ≡ 0 → IsTree t
    rooted :
        {t : Tree T} {n : Node T}
        → t.root ≡ some n
        → IsRoot n
        → t.size ≡ length (contents n)
        → IsTree t
