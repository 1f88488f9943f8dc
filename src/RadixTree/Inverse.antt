-- ===== src/RadixTree/Inverse.antt =====
-- An insertion and the erasure of the same key.
use collection_of_mini_proje.Prelude.{◌≡◌, inl, inr, ap, sym, ◌∙◌, true, none, some, Bool-cases}
use collection_of_mini_proje.RadixTree.Key.{Key, key_eq}
use collection_of_mini_proje.RadixTree.Order.{key_eq_refl, key_eq_sound}
use collection_of_mini_proje.RadixTree.Node.{Tree, ok, Location}
use collection_of_mini_proje.RadixTree.Insert.{insert}
use collection_of_mini_proje.RadixTree.Erase.{erase}
use collection_of_mini_proje.RadixTree.Spec.{entries, lookup, IsTree}
use collection_of_mini_proje.RadixTree.Insertion.{insert-lookup}
use collection_of_mini_proje.RadixTree.Removal.{erase-lookup}
use collection_of_mini_proje.RadixTree.Increasing.{entries_ext}

module _ {T : Type 0} where
  -- After the insertion of a new key, its erasure gives back the entries.
  pub record Restores (key : Key) (v : T) (t : Tree T) : Type 0 where
    pub t1 : Tree T
    pub l : Location T
    pub t2 : Tree T
    pub inserted : insert (key, v) t ≡ ok (t1, l, true)
    pub erased : erase key t1 ≡ ok (t2, true)
    pub is : IsTree t2
    pub same : entries t2 ≡ entries t

  -- In a well-formed tree that has no entry for a key, the insertion of the key and then its erasure
  -- both report that they changed the tree, and leave a well-formed tree with the same entries in the
  -- same order as before.
  pub erase-insert :
      (key : Key) (v : T) (t : Tree T) → IsTree t → lookup key (entries t) ≡ none → Restores key v t
  erase-insert key v t is absent =
      let i = insert-lookup key v t is in
      let e = erase-lookup key i.t' i.is in
      let here : lookup key (entries i.t') ≡ some v = i.search key ∙ rw (absent, key_eq_refl key) in
      record {
        t1 = i.t';
        l = i.l;
        t2 = e.t';
        inserted = i.returned ∙ rw absent;
        erased = e.returned ∙ rw here;
        is = e.is;
        same = entries_ext e.t' t e.is is (λ j. e.search j ∙ elim (Bool-cases (key_eq key j)) [
          | inl this ↦
              rw this
                (sym (ap (λ x. lookup x (entries t)) (sym (key_eq_sound key j this)) ∙ absent))
          | inr other ↦ rw other (i.search j ∙ rw (absent, other))
        ]);
      }
