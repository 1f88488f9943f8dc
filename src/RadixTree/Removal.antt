-- ===== src/RadixTree/Removal.antt =====
-- `erase` against the list of entries.
use collection_of_mini_proje.Prelude.{
  ◌-◌, ◌≡◌, inl, inr, refl, ap, sym, subst, ◌∙◌, Bool, true, false, not, none, some, [], ◌∷◌,
  if◌then◌else◌, arith, append-nil, Bool-cases,
}
use collection_of_mini_proje.RadixTree.Key.{Key, key_eq}
use collection_of_mini_proje.RadixTree.Order.{key_eq_sound}
use collection_of_mini_proje.RadixTree.Node.{
  Node, node, Tree, Result, ok, failed, Location, fields, children, is_leaf, erase_child,
}
use collection_of_mini_proje.RadixTree.Search.{find_node}
use collection_of_mini_proje.RadixTree.Spec.{
  get, contents, entries, lookup, IsRoot, IsTree, no_root, rooted,
}
use collection_of_mini_proje.RadixTree.Locate.{find_node_lem}
use collection_of_mini_proje.RadixTree.Locations.{Found, at_leaf, stuck, partial}
use collection_of_mini_proje.RadixTree.Count.{total}
use collection_of_mini_proje.RadixTree.Erasure.{Erased}
use collection_of_mini_proje.RadixTree.Entries.{root-lookup}
use collection_of_mini_proje.RadixTree.Lookup.{Answer, Found-Answer}
use collection_of_mini_proje.RadixTree.Insertion.{is_none}
use collection_of_mini_proje.RadixTree.Erase.{erase, prune}
use collection_of_mini_proje.RadixTree.Pruning.{prune-Erased}

module _ {T : Type 0} where
  -- What `erase` returns behind `find_node`.
  abbrev erased_at : Key → Tree T → Location T → Result (Tree T × Bool)
  erased_at key t (child, above) =
      if is_leaf child
      then elim above [
        | [] ↦ failed
        | parent ∷ up ↦
            let parent' = node (fields parent) (erase_child [] (children parent)) in
            ok (record { size = t.size - 1; root = some (prune parent' up) }, true)
      ]
      else ok (t, false)

  erase-at :
      (key : Key) (t : Tree T) (root : Node T)
      → t.root ≡ some root
      → erase key t ≡ erased_at key t (find_node key root 0 [])
  unfolding erase
  erase-at key t root e = rw e

  erase-empty : (key : Key) (t : Tree T) → t.root ≡ none → erase key t ≡ ok (t, false)
  unfolding erase
  erase-empty key t e = rw e

  -- `erase` returns the tree `t'` and whether it removed an entry.
  pub record Erases (key : Key) (t : Tree T) : Type 0 where
    pub t' : Tree T
    pub returned : erase key t ≡ ok (t', not (is_none (lookup key (entries t))))
    pub is : IsTree t'
    pub search :
        (j : Key) → lookup j (entries t') ≡ (if key_eq key j then none else lookup j (entries t))

  unchanged :
      (key : Key) (t : Tree T)
      → IsTree t
      → erase key t ≡ ok (t, false)
      → lookup key (entries t) ≡ none
      → Erases key t
  unchanged key t is e absent = record {
    t' = t;
    returned = rw absent e;
    is = is;
    search = λ j. elim (Bool-cases (key_eq key j)) [
      | inl same ↦ rw same (ap (λ x. lookup x (entries t)) (sym (key_eq_sound key j same)) ∙ absent)
      | inr other ↦ rw other
    ];
  }

  entries-rooted : (t : Tree T) (n : Node T) → t.root ≡ some n → entries t ≡ contents n
  unfolding entries
  entries-rooted t n e = rw e

  Found-Erases :
      (key : Key) (t : Tree T) (root : Node T) (l : Location T)
      → IsTree t
      → t.root ≡ some root
      → IsRoot root
      → t.size ≡ total root
      → erase key t ≡ erased_at key t l
      → Found root key l
      → Answer root key l
      → Erases key t
  Found-Erases key t root l is e r size step found (inr (deep, absent)) =
      unchanged key t is (step ∙ rw deep)
        (ap (lookup key) (entries-rooted t root e) ∙ sym (root-lookup root r key) ∙ absent)
  Found-Erases key t root l is e r size step (at_leaf {c} {parent} {up} q loc inner found same leaf)
        (inl (_, (v, holds, here))) =
      let known : (j : Key) → lookup j (entries t) ≡ get j root =
        λ j. ap (lookup j) (entries-rooted t root e) ∙ sym (root-lookup root r j) in
      let root' = prune (node (fields parent) (erase_child [] (children parent))) up in
      let gone : Erased root key root' =
        subst (λ x. Erased root x root') (append-nil q ∙ sym same)
          (prune-Erased r loc inner found leaf) in
      let t' : Tree T = record { size = t.size - 1; root = some root' } in
      record {
        t' = t';
        returned = rw (known key, here) (step ∙ rw leaf);
        is = rooted refl gone.is (omega (arith, size, gone.one_less));
        search = λ j. rw (known j) (
            ap (lookup j) (entries-rooted t' root' refl)
            ∙ sym (root-lookup root' gone.is j)
            ∙ gone.search j);
      }
  Found-Erases key t root l is e r size step (stuck q rest loc inner e' free) (inl (leaf, _)) =
      cc (leaf, inner.internal)
  Found-Erases key t root l is e r size step (partial q k rest loc inner found deep e' same part)
        (inl (leaf, _)) =
      cc (leaf, deep)

  -- In a well-formed tree `erase` never fails. It returns a well-formed tree, with the right `size`,
  -- and `true` just if the key had an entry. The look-up of any key in the new entries gives nothing
  -- for the key, and what it gave before for every other key.
  pub erase-lookup : (key : Key) (t : Tree T) → IsTree t → Erases key t
  erase-lookup key t (no_root e size) =
      unchanged key t (no_root e size) (erase-empty key t e) (unfold entries lookup in rw e)
  erase-lookup key t (rooted {n} e r size) =
      let found = find_node_lem n key r in
      Found-Erases key t n (find_node key n 0 []) (rooted e r size) e r size (erase-at key t n e)
        found (Found-Answer found)
