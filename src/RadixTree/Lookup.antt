-- ===== src/RadixTree/Lookup.antt =====
-- `find` against a scan of the entries.
use collection_of_mini_proje.Prelude.{
  ℕ, ◌≡◌, ◌⊎◌, inl, inr, refl, ap, sym, subst, ◌∙◌, true, false, Option, none, some, [], append-nil,
}
use collection_of_mini_proje.RadixTree.Key.{Key}
use collection_of_mini_proje.RadixTree.Node.{Node, node, Tree, Location, children, is_leaf, fields}
use collection_of_mini_proje.RadixTree.Search.{find_node, find}
use collection_of_mini_proje.RadixTree.Spec.{get, entries, lookup, IsNode, IsTree, no_root, rooted}
use collection_of_mini_proje.RadixTree.Map.{get_in-Free}
use collection_of_mini_proje.RadixTree.Child.{get_in_miss}
use collection_of_mini_proje.RadixTree.Locate.{find_node_lem}
use collection_of_mini_proje.RadixTree.Locations.{Found, at_leaf, stuck, partial}
use collection_of_mini_proje.RadixTree.Rebuild.{Child-of, get-inner, get-IsLoc}
use collection_of_mini_proje.RadixTree.Entries.{root-lookup}

module _ {T : Type 0} where
  -- What a result of `find_node` says of the key: a leaf with its value, or it is not there.
  abbrev pub Answer : Node T → Key → Location T → Type 0
  Answer root key l =
      ((is_leaf l.0 ≡ true)
        × ((v : T) × ((fields l.0).value ≡ some (key, v)) × (get key root ≡ some v)))
      ⊎ ((is_leaf l.0 ≡ false) × (get key root ≡ none))

  leaf_value :
      (q : Key) (c : Node T)
      → IsNode q [] c
      → is_leaf c ≡ true
      → (v : T) × ((fields c).value ≡ some (q, v)) × (get [] c ≡ some v)
  unfolding get
  leaf_value q (node f cs) (_, _, inl l, _, _) h = (l.v, l.holds, rw (h, l.holds))
  leaf_value q (node f cs) (_, _, inr i, _, _) h = cc (i.internal)

  pub Found-Answer :
      {root : Node T} {key : Key} {l : Location T} → Found root key l → Answer root key l
  Found-Answer {root} {key} (at_leaf {c} {parent} q loc inner found e leaf) =
      let child = Child-of inner found in
      let (v, holds, value) = leaf_value q c child.is leaf in
      let search : get key root ≡ some v =
        ap (λ x. get x root) (e ∙ sym (append-nil q))
        ∙ get-IsLoc [] loc inner.internal
        ∙ get-inner [] parent inner.internal
        ∙ child.into [] refl
        ∙ value in
      inl (leaf, (v, holds ∙ ap (λ x. some (x, v)) (sym e), search))
  Found-Answer {root} (stuck {n} q rest loc inner e free) = inr (
    inner.internal,
    ap (λ x. get x root) e
        ∙ get-IsLoc rest loc inner.internal
        ∙ get-inner rest n inner.internal
        ∙ get_in-Free rest (children n) free,
  )
  Found-Answer {root} (partial {c} {parent} q k rest loc inner found deep e same part) =
      let child = Child-of inner found in
      inr (
        deep,
        ap (λ x. get x root) e
            ∙ get-IsLoc rest loc inner.internal
            ∙ get-inner rest parent inner.internal
            ∙ get_in_miss k rest (children parent) child.only (sym same) part,
      )

  -- The iterator for a key: null if it has no value, and else one that leads to the key and value.
  abbrev pub Finds : Key → Option (Location T) → Option T → Type 0
  Finds key o none = o ≡ none
  Finds key o (some v) = (l : Location T) × (o ≡ some l) × ((fields l.0).value ≡ some (key, v))

  find-Answer :
      (key : Key) (root : Node T) (size : ℕ)
      → Answer root key (find_node key root 0 [])
      → Finds key (find key (record { size = size; root = some root })) (get key root)
  unfolding find
  find-Answer key root size (inl (leaf, (v, holds, e))) =
      rw e (find_node key root 0 [], rw leaf, holds)
  find-Answer key root size (inr (deep, e)) = rw (e, deep)

  -- In a well-formed tree `find` returns the null iterator if the key has no entry, and else an
  -- iterator to the key with the value of its entry.
  pub find-lookup :
      (key : Key) (t : Tree T) → IsTree t → Finds key (find key t) (lookup key (entries t))
  find-lookup key t (no_root e _) = unfold find entries lookup in rw e
  find-lookup key t (rooted {n} e r _) =
      let found : Finds key (find key t) (get key n) =
        subst (λ x. Finds key (find key (record { size = t.size; root = x })) (get key n)) (sym e)
          (find-Answer key n t.size (Found-Answer (find_node_lem n key r))) in
      subst (Finds key (find key t)) (root-lookup n r key ∙ unfold entries in rw e) found
