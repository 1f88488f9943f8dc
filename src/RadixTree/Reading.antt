-- ===== src/RadixTree/Reading.antt =====
-- `operator[]` read, and `erase` of an iterator that `find` returned.
use collection_of_mini_proje.Prelude.{
  ◌≡◌, inl, inr, refl, ap, sym, ◌∙◌, Bool, false, ◌&&◌, not, Option, none, some, if◌then◌else◌,
  Bool-cases,
}
use collection_of_mini_proje.RadixTree.Key.{Key, key_eq}
use collection_of_mini_proje.RadixTree.Order.{key_eq_sound}
use collection_of_mini_proje.RadixTree.Node.{Tree, Result, ok, Location, fields}
use collection_of_mini_proje.RadixTree.Search.{find}
use collection_of_mini_proje.RadixTree.Insert.{at_key}
use collection_of_mini_proje.RadixTree.Erase.{erase, erase_iterator}
use collection_of_mini_proje.RadixTree.Iterate.{pointee}
use collection_of_mini_proje.RadixTree.Spec.{entries, lookup, IsTree}
use collection_of_mini_proje.RadixTree.Lookup.{Finds, find-lookup}
use collection_of_mini_proje.RadixTree.Insertion.{is_none, or_new, insert-lookup}
use collection_of_mini_proje.RadixTree.Removal.{erase-lookup}
use collection_of_mini_proje.RadixTree.Subscript.{at_key-found, at_key-new}

module _ {T : Type 0} where
  -- `operator[]` returns the tree `t'` and a pointer to the entry, which is new if there was none.
  pub record Reads (d : T) (key : Key) (t : Tree T) : Type 0 where
    pub t' : Tree T
    pub l : Location T
    pub returned : at_key d key t ≡ ok (t', l)
    pub is : IsTree t'
    pub value : (fields l.0).value ≡ some (key, or_new d (lookup key (entries t)))
    pub search :
        (j : Key)
        → lookup j (entries t') ≡ (
            if is_none (lookup key (entries t)) && key_eq key j
            then some d
            else lookup j (entries t))

  Finds-Reads :
      (d : T) (key : Key) (t : Tree T)
      → IsTree t
      → (o : Option T) → lookup key (entries t) ≡ o
      → Finds key (find key t) o
      → Reads d key t
  Finds-Reads d key t is none e missing =
      let i = insert-lookup key d t is in
      record {
        t' = i.t';
        l = i.l;
        returned = at_key-new d key t i.t' i.l missing (i.returned ∙ rw e);
        is = i.is;
        value = i.points;
        search = i.search;
      }
  Finds-Reads d key t is (some v) e (l, found, holds) = record {
    t' = t;
    l = l;
    returned = at_key-found d key t l found;
    is = is;
    value = rw e holds;
    search = λ j. rw e;
  }

  pub at_key-lookup : (d : T) (key : Key) (t : Tree T) → IsTree t → Reads d key t
  at_key-lookup d key t is =
      Finds-Reads d key t is (lookup key (entries t)) refl (find-lookup key t is)

  -- `it = find(key); if (it != end()) erase(it);`
  unfoldable pub erase_found : Key → Tree T → Result (Tree T × Bool)
  erase_found key t = elim (find key t) [ none ↦ ok (t, false) | some it ↦ erase_iterator it t ]

  found_at :
      (key : Key) (t : Tree T) (l : Location T) (v : T)
      → find key t ≡ some l
      → (fields l.0).value ≡ some (key, v)
      → erase_found key t ≡ erase key t
  unfolding erase_found erase_iterator pointee
  found_at key t l v e holds = rw (e, erase_found) (rw (holds, erase_iterator, pointee))

  found_none : (key : Key) (t : Tree T) → find key t ≡ none → erase_found key t ≡ ok (t, false)
  unfolding erase_found
  found_none key t e = rw (e, erase_found)

  -- The tree after the erasure of the iterator that `find` returns, if it is not null.
  pub record ErasesFound (key : Key) (t : Tree T) : Type 0 where
    pub t' : Tree T
    pub returned : erase_found key t ≡ ok (t', not (is_none (lookup key (entries t))))
    pub is : IsTree t'
    pub search :
        (j : Key) → lookup j (entries t') ≡ (if key_eq key j then none else lookup j (entries t))

  Finds-ErasesFound :
      (key : Key) (t : Tree T)
      → IsTree t
      → (o : Option T) → lookup key (entries t) ≡ o
      → Finds key (find key t) o
      → ErasesFound key t
  Finds-ErasesFound key t is none e missing = record {
    t' = t;
    returned = found_none key t missing ∙ rw e;
    is = is;
    search = λ j. elim (Bool-cases (key_eq key j)) [
      | inl same ↦ rw same (ap (λ x. lookup x (entries t)) (sym (key_eq_sound key j same)) ∙ e)
      | inr other ↦ rw other
    ];
  }
  Finds-ErasesFound key t is (some v) e (l, found, holds) =
      let r = erase-lookup key t is in
      record {
        t' = r.t';
        returned = found_at key t l v found holds ∙ r.returned;
        is = r.is;
        search = r.search;
      }

  pub erase_found-lookup : (key : Key) (t : Tree T) → IsTree t → ErasesFound key t
  erase_found-lookup key t is =
      Finds-ErasesFound key t is (lookup key (entries t)) refl (find-lookup key t is)
