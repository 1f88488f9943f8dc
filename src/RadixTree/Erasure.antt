-- ===== src/RadixTree/Erasure.antt =====
-- `erase`: the nodes that it changes once the leaf is gone, and the root that it leaves.
use collection_of_mini_proje.Prelude.{
  ◌+◌, ◌<◌, ◌≡◌, ◌⊎◌, inl, inr, refl, ap, sym, subst, ◌∙◌, true, false, none, some, List, [], ◌++◌,
  ◌==◌, if◌then◌else◌, arith, length, drop, Bool-cases,
}
use collection_of_mini_proje.RadixTree.Key.{Key, key_eq}
use collection_of_mini_proje.RadixTree.Order.{rank, prefix, prefix-split}
use collection_of_mini_proje.RadixTree.Node.{
  Node, node, Children, nil, cons, fields, children, is_leaf, count, find_child, write_back,
}
use collection_of_mini_proje.RadixTree.Spec.{
  get, get_in, Sorted, Compact, leaf_first, IsNode, AreNodes, IsRoot,
}
use collection_of_mini_proje.RadixTree.Locations.{IsInner, IsLoc, top, below, leaf-key}
use collection_of_mini_proje.RadixTree.NewChild.{key_eq-++}
use collection_of_mini_proje.RadixTree.Rebuild.{
  Child-of, IsNode-key, Fits-self, Fits-children, get-inner, get-IsLoc,
}
use collection_of_mini_proje.RadixTree.Roots.{Rebuilt, write_back-Rebuilt}
use collection_of_mini_proje.RadixTree.Count.{total, total_of, total-inner, write_back-total}
use collection_of_mini_proje.RadixTree.Prepend.Adds.{IsNode-depth}
use collection_of_mini_proje.RadixTree.Merge.{merge-Rebuilt}
use collection_of_mini_proje.RadixTree.Erase.{shrink, merge}

module _ {T : Type 0} where
  -- The root without the entry of a key.
  pub record Erased (root : Node T) (key : Key) (root' : Node T) : Type 0 where
    pub is : IsRoot root'
    pub search : (j : Key) → get j root' ≡ (if key_eq key j then none else get j root)
    pub one_less : total root' + 1 ≡ total root

  -- Children `cs` for a node `n` with the path `q`, without the entry under `s`.
  pub record Less (q s : Key) (n : Node T) (cs : Children T) : Type 0 where
    pub sorted : Sorted 0 cs
    pub nodes : AreNodes q cs
    pub search : (r : Key) → get_in r cs ≡ (if key_eq s r then none else get_in r (children n))
    pub one_less : total_of cs + 1 ≡ total_of (children n)

  Rebuilt-Erased :
      {root n : Node T} {q : Key} {up : List (Node T)} (s : Key) (cs : Children T) (root' : Node T)
      → IsLoc root q n up
      → is_leaf n ≡ false
      → Less q s n cs
      → Rebuilt root q (node (fields n) cs) root'
      → total root' + total n ≡ total root + total (node (fields n) cs)
      → Erased root (q ++ s) root'
  Rebuilt-Erased {root} {n} {q} s cs root' loc h l b sum = record {
    is = b.is;
    search = λ j.
        b.search j
        ∙ rw (key_eq-++ q s j) (elim (Bool-cases (prefix q j)) [
          | inl through ↦
              let r = drop (length q) j in
              let old : get j root ≡ get r n =
                ap (λ x. get x root) (sym (prefix-split q j through)) ∙ get-IsLoc r loc h in
              rw (through, old, get-inner r (node (fields n) cs) h, l.search r, get-inner r n h)
          | inr other ↦ rw other
        ]);
    one_less = omega (arith, sum, l.one_less, total-inner n h, total-inner (node (fields n) cs) h);
  }

  -- The node stays, with fewer children.
  pub written-Erased :
      {root n : Node T} {q : Key} {up : List (Node T)} (s : Key) (cs : Children T)
      → IsRoot root
      → IsLoc root q n up
      → IsInner q n
      → Less q s n cs
      → (up ≡ []) ⊎ Compact cs
      → Erased root (q ++ s) (write_back (node (fields n) cs) up)
  written-Erased {n = n} {up = up} s cs r loc inner l compact =
      let n' = node (fields n) cs in
      let fits = Fits-children loc cs (Fits-self loc r) inner.internal compact l.sorted l.nodes in
      Rebuilt-Erased s cs (write_back n' up) loc inner.internal l
        (write_back-Rebuilt n' loc r fits inner.internal) (write_back-total n' loc r fits)

  -- A node with one child that is no leaf goes.
  merged-Erased :
      {root n parent : Node T} {q q' : Key} {up : List (Node T)} (k s ku : Key) (u : Node T)
      → IsRoot root
      → IsLoc root q parent up
      → IsInner q parent
      → find_child k (children parent) ≡ some n
      → q' ≡ q ++ k
      → IsInner q' n
      → Less q' s n (cons ku u nil)
      → is_leaf u ≡ false
      → Erased root (q' ++ s) (merge (node (fields n) (cons ku u nil)) ku u parent up)
  merged-Erased {root} {n} {parent} {q} {q'} {up} k s ku u r loc above found e inner l deep =
      let n' = node (fields n) (cons ku u nil) in
      let is = (Child-of above found).is in
      let (b, sum) =
        merge-Rebuilt k ku n' r loc above found inner.internal
          (subst (λ x. IsNode x ku u) e l.nodes.0) deep refl inner.internal (IsNode-key q k n is)
          (IsNode-depth q k n is) in
      Rebuilt-Erased s (cons ku u nil) (merge n' ku u parent up) (below k loc above found e)
        inner.internal l (subst (λ x. Rebuilt root x n' (merge n' ku u parent up)) (sym e) b) sum

  pub shrink-Erased :
      {root n : Node T} {q : Key} {up : List (Node T)} (s : Key) (cs : Children T)
      → IsRoot root
      → IsLoc root q n up
      → IsInner q n
      → Less q s n cs
      → (up ≡ []) ⊎ (0 < count cs)
      → Erased root (q ++ s) (shrink (node (fields n) cs) up)
  unfolding shrink write_back
  shrink-Erased s cs r (top e) inner l more = written-Erased s cs r (top e) inner l (inl refl)
  shrink-Erased s nil r (below k loc above found e) inner l (inl never) = cc
  shrink-Erased s nil r (below k loc above found e) inner l (inr h) = absurd (omega arith)
  shrink-Erased {q = q} s (cons ku u nil) r (below k loc above found e) inner l more =
      elim (Bool-cases (is_leaf u)) [
        | inl leaf ↦
            let first : leaf_first (cons ku u nil) ≡ true =
              ap (λ x. rank x == 0) (leaf-key q ku u l.nodes.0 leaf) in
            rw leaf (
              written-Erased s (cons ku u nil) r (below k loc above found e) inner l
                (inr (inr first)))
        | inr deep ↦ rw deep (merged-Erased k s ku u r loc above found e inner l deep)
      ]
  shrink-Erased s (cons ku u (cons kv v cs)) r (below k loc above found e) inner l more =
      written-Erased s (cons ku u (cons kv v cs)) r (below k loc above found e) inner l
        (inr (inl (omega arith)))
