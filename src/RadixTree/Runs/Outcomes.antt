-- ===== src/RadixTree/Runs/Outcomes.antt =====
-- The trees that calls on a new tree make: their walks, their look-ups and their shape.
use collection_of_mini_proje.Prelude.{
  ◌≡◌, inr, refl, ap, sym, subst, ◌∙◌, false, Option, none, some, List, ◌==◌,
}
use collection_of_mini_proje.RadixTree.Key.{Key}
use collection_of_mini_proje.RadixTree.Node.{Node, Tree, Result, ok, new_tree, empty}
use collection_of_mini_proje.RadixTree.Search.{find}
use collection_of_mini_proje.RadixTree.Iterate.{begin}
use collection_of_mini_proje.RadixTree.Spec.{entries, lookup, IsTree}
use collection_of_mini_proje.RadixTree.Lookup.{find-lookup}
use collection_of_mini_proje.RadixTree.Leaves.{present}
use collection_of_mini_proje.RadixTree.Walk.{collect}
use collection_of_mini_proje.RadixTree.Traversal.{begin-entries}
use collection_of_mini_proje.RadixTree.Ascending.{Ascending}
use collection_of_mini_proje.RadixTree.Increasing.{entries-Ascending, size-entries}
use collection_of_mini_proje.RadixTree.Nearest.{shown}
use collection_of_mini_proje.RadixTree.Canonical.{Same, lookup-Same}
use collection_of_mini_proje.RadixTree.Runs.{Call, Reply, run}
use collection_of_mini_proje.RadixTree.Runs.Refines.{
  run-replies, shown-Finds, new_tree-IsTree, not_empty,
}

module _ {T : Type 0} where
  -- The key and the value of an entry, if there is one.
  abbrev pub entry_of : Key → Option T → Option (Key × T)
  entry_of k x = elim x [ none ↦ none | some v ↦ some (k, v) ]

  entry_of_inj : (k : Key) (x y : Option T) → entry_of k x ≡ entry_of k y → x ≡ y
  entry_of_inj k none none e = refl
  entry_of_inj k none (some w) e = cc
  entry_of_inj k (some v) none e = cc
  entry_of_inj k (some v) (some w) e =
      let pairs : ◌≡◌ {A = Key × T} (k, v) (k, w) = cc in ap (λ p. some p.1) pairs

  pub shown-lookup :
      (k : Key) (t : Tree T) → IsTree t → shown (find k t) ≡ entry_of k (lookup k (entries t))
  shown-lookup k t is = shown-Finds k (find k t) (lookup k (entries t)) (find-lookup k t is)

  same_tree :
      (t u : Tree T) (rs qs : List (Reply T))
      → ◌≡◌ {A = Result (Tree T × List (Reply T))} (ok (t, rs)) (ok (u, qs))
      → t ≡ u
  same_tree t u rs qs e = cc

  run-IsTree :
      (d : T) (cs : List (Call T)) (t : Tree T) (rs : List (Reply T))
      → run d cs new_tree ≡ ok (t, rs)
      → IsTree t
  run-IsTree d cs t rs e =
      let (u, runs, is, _) = run-replies d cs new_tree new_tree-IsTree in
      subst IsTree (same_tree u t _ rs (sym runs ∙ e)) is

  -- In the tree that any sequence of calls on a new one leaves, if it is not empty, the walk from
  -- `begin` by `++` ends at the null iterator after as many steps as the tree has entries. It visits
  -- the keys in strictly increasing order, as `std::string` compares them, and just the keys that
  -- `find` finds, with the values to which its iterators lead.
  pub run-Ascending :
      (d : T) (cs : List (Call T)) (t : Tree T) (rs : List (Reply T))
      → run d cs new_tree ≡ ok (t, rs)
      → empty t ≡ false
      → (es : List (Key × T)) × (collect t.size (begin t) ≡ some (present es))
        × Ascending es
        × ((k : Key) → shown (find k t) ≡ entry_of k (lookup k es))
  unfolding empty
  run-Ascending d cs t rs e some_left =
      let is = run-IsTree d cs t rs e in
      let size = size-entries t is in
      let ne = not_empty d (entries t) (ap (λ n. n == 0) (sym size) ∙ some_left) in
      (
        entries t,
        ap (λ n. collect n (begin t)) size ∙ begin-entries t is (inr ne),
        entries-Ascending t is,
        λ k. shown-lookup k t is,
      )

  -- Two trees with roots that any sequences of calls on new ones leave, and in which `find` leads to
  -- the same key and value or to nothing for each key, have the same shape: the same keys, depths,
  -- leaves with their pairs, and children, in the same order; `m_value` of inner nodes can differ.
  pub run-Same :
      (d : T) (cs cs' : List (Call T)) (t u : Tree T) (rs qs : List (Reply T)) (n m : Node T)
      → run d cs new_tree ≡ ok (t, rs)
      → run d cs' new_tree ≡ ok (u, qs)
      → t.root ≡ some n
      → u.root ≡ some m
      → ((k : Key) → shown (find k t) ≡ shown (find k u))
      → Same n m
  run-Same d cs cs' t u rs qs n m e e' root root' finds =
      let is = run-IsTree d cs t rs e in
      let is' = run-IsTree d cs' u qs e' in
      lookup-Same t u n m is is' root root' (λ k.
        entry_of_inj k (lookup k (entries t)) (lookup k (entries u))
          (sym (shown-lookup k t is) ∙ finds k ∙ shown-lookup k u is'))
