-- ===== src/RadixTree/Pruning.antt =====
-- `erase`: which node loses its leaf, and which its last child.
use collection_of_mini_proje.Prelude.{
  ◌<◌, ◌≡◌, ◌≢◌, ◌⊎◌, inl, inr, refl, ap, sym, subst, ◌∙◌, true, false, none, some, List, [], ◌∷◌,
  ◌++◌, ◌==◌, if◌then◌else◌, arith, length, drop, ltb, append-nil, Bool-cases,
}
use collection_of_mini_proje.RadixTree.Key.{Key, key_eq}
use collection_of_mini_proje.RadixTree.Order.{rank, prefix, hits}
use collection_of_mini_proje.RadixTree.Node.{
  Node, node, Children, nil, cons, fields, children, is_leaf, is_empty, count, find_child,
  erase_child, write_back,
}
use collection_of_mini_proje.RadixTree.Spec.{get, get_in, contents, leaf_first, IsNode, IsRoot}
use collection_of_mini_proje.RadixTree.Map.{Sorted-erase, AreNodes-erase, get_in-erase}
use collection_of_mini_proje.RadixTree.Child.{get_in_miss}
use collection_of_mini_proje.RadixTree.Locate.{is_nil}
use collection_of_mini_proje.RadixTree.Locations.{IsInner, IsLoc, top, below, internal-key}
use collection_of_mini_proje.RadixTree.NewChild.{key_eq-nil, key_eq-rank, key_eq-prefix}
use collection_of_mini_proje.RadixTree.Rebuild.{
  Child-of, IsNode-key, Fits-self, Fits-Compact, get-inner,
}
use collection_of_mini_proje.RadixTree.Count.{total, total_of, total-inner, total-erase}
use collection_of_mini_proje.RadixTree.Prepend.Place.{count-erase, leaf_first-erase}
use collection_of_mini_proje.RadixTree.Merge.{rank-positive}
use collection_of_mini_proje.RadixTree.Erasure.{Erased, Less, written-Erased, shrink-Erased}
use collection_of_mini_proje.RadixTree.Erase.{prune, shrink}

rank-is_nil : (r : Key) → (rank r == 0) ≡ is_nil r
rank-is_nil [] = refl
rank-is_nil (c ∷ r) = ground arith

module _ {T : Type 0} where
  pub total-leaf : (q k : Key) (c : Node T) → IsNode q k c → is_leaf c ≡ true → total c ≡ 1
  unfolding contents
  total-leaf q k (node f cs) (_, _, inl l, _, _) h = rw (h, l.holds)
  total-leaf q k (node f cs) (_, _, inr i, _, _) h = cc (i.internal)

  empty-nil : (cs : Children T) → is_empty cs ≡ true → cs ≡ nil
  empty-nil nil h = refl
  empty-nil (cons k c cs) h = cc

  count-some : (cs : Children T) → is_empty cs ≡ false → 0 < count cs
  count-some nil h = cc
  count-some (cons k c cs) h = omega arith

  leaf_first-some : (cs : Children T) → leaf_first cs ≡ true → 0 < count cs
  leaf_first-some nil h = cc
  leaf_first-some (cons k c cs) h = omega arith

  get_in-nil : (r : Key) → get_in {T = T} r nil ≡ none
  unfolding get
  get_in-nil r = refl

  total-nil : (cs : Children T) → cs ≡ nil → total_of cs ≡ 0
  unfolding contents
  total-nil cs e = rw e

  -- A node without its leaf.
  leaf-Less :
      {q : Key} {n c : Node T}
      → IsInner q n
      → find_child [] (children n) ≡ some c
      → is_leaf c ≡ true
      → Less q [] n (erase_child [] (children n))
  leaf-Less {q} {n} {c} inner found leaf =
      let child = Child-of inner found in
      record {
        sorted = Sorted-erase [] 0 (children n) inner.sorted;
        nodes = AreNodes-erase q [] (children n) inner.nodes;
        search = λ r.
            get_in-erase r [] 0 (children n) inner.sorted child.only
            ∙ rw (key_eq-nil r, rank-is_nil r);
        one_less =
            omega (arith, total-erase [] c (children n) found, total-leaf q [] c child.is leaf);
      }

  -- A node that had only its leaf finds nothing else.
  lone-none :
      {q : Key} {n c : Node T} (r : Key)
      → IsInner q n
      → find_child [] (children n) ≡ some c
      → erase_child [] (children n) ≡ nil
      → is_nil r ≡ false
      → get r n ≡ none
  lone-none {n = n} r inner found lone more =
      let erased = get_in-erase r [] 0 (children n) inner.sorted (Child-of inner found).only in
      let other : (rank r == 0) ≡ false = rank-is_nil r ∙ more in
      let left : get_in r (erase_child [] (children n)) ≡ none =
        ap (get_in r) lone ∙ get_in-nil r in
      get-inner r n inner.internal
      ∙ sym (
          subst
            (λ b.
              get_in r (erase_child [] (children n)) ≡ (if b then none else get_in r (children n)))
            other erased)
      ∙ left

  -- Its parent, without it.
  gone-Less :
      {q q' k : Key} {parent n c : Node T}
      → IsInner q parent
      → find_child k (children parent) ≡ some n
      → IsInner q' n
      → find_child [] (children n) ≡ some c
      → is_leaf c ≡ true
      → erase_child [] (children n) ≡ nil
      → Less q k parent (erase_child k (children parent))
  gone-Less {q} {q'} {k} {parent} {n} {c} above found inner leaf_found leaf lone =
      let child = Child-of above found in
      let only_one : total n ≡ 1 =
        let e = total-erase [] c (children n) leaf_found in
        let none_left : total_of (erase_child [] (children n)) ≡ 0 =
          total-nil (erase_child [] (children n)) lone in
        omega (
          arith,
          e,
          none_left,
          total-inner n inner.internal,
          total-leaf q' [] c (Child-of inner leaf_found).is leaf,
        ) in
      record {
        sorted = Sorted-erase k 0 (children parent) above.sorted;
        nodes = AreNodes-erase q k (children parent) above.nodes;
        search = λ r.
            get_in-erase r k 0 (children parent) above.sorted child.only
            ∙ elim (Bool-cases (key_eq k r)) [
              | inl same ↦
                  let here : (rank r == rank k) ≡ true = ground (arith, key_eq-rank k r same) in
                  rw (here, same)
              | inr other ↦ elim (Bool-cases (rank r == rank k)) [
                | inr apart ↦ rw (apart, other)
                | inl here ↦ elim (Bool-cases (prefix k r)) [
                  | inr miss ↦
                      rw (here, other)
                        (sym (get_in_miss k r (children parent) child.only (ground arith) miss))
                  | inl through ↦
                      let longer : is_nil (drop (length k) r) ≡ false =
                        ground (arith, key_eq-prefix k r) in
                      let hit : hits k r ≡ true = ground arith in
                      rw (here, other)
                        (sym (
                          child.into r hit
                          ∙ lone-none (drop (length k) r) inner leaf_found lone longer))
                ]
              ]
            ];
        one_less = omega (arith, total-erase k n (children parent) found, only_one);
      }

  -- Enough of its children are left.
  gone-count :
      {root parent n : Node T} {q k : Key} {up : List (Node T)}
      → IsRoot root
      → IsLoc root q parent up
      → IsInner q parent
      → find_child k (children parent) ≡ some n
      → k ≢ []
      → (up ≡ []) ⊎ (0 < count (erase_child k (children parent)))
  gone-count {parent = parent} {n = n} {k = k} r loc above found key =
      elim (Fits-Compact loc (Fits-self loc r) above.internal) [
        | inl e ↦ inl e
        | inr (inl two) ↦ inr (omega (arith, two, count-erase k n (children parent) found))
        | inr (inr first) ↦ inr (
            leaf_first-some (erase_child k (children parent))
              (leaf_first-erase k (children parent) (rank-positive k key) first))
      ]

  pub prune-Erased :
      {root n c : Node T} {q : Key} {up : List (Node T)}
      → IsRoot root
      → IsLoc root q n up
      → IsInner q n
      → find_child [] (children n) ≡ some c
      → is_leaf c ≡ true
      → Erased root (q ++ []) (prune (node (fields n) (erase_child [] (children n))) up)
  unfolding prune write_back
  prune-Erased {root} {n} r (top e) inner found leaf =
      written-Erased [] (erase_child [] (children n)) r (top e) inner (leaf-Less inner found leaf)
        (inl refl)
  prune-Erased {root} {n} {c} {q = q'} r (below {q} {parent = parent} {up = up} k loc above at e)
        inner found leaf =
      let cs = erase_child [] (children n) in
      let less = leaf-Less inner found leaf in
      elim (Bool-cases (ltb 1 (count cs))) [
        | inl many ↦
            rw many (
              written-Erased [] cs r (below k loc above at e) inner less (inr (inl (ground arith))))
        | inr few ↦ elim (Bool-cases (is_empty cs)) [
          | inl empty ↦
              let is = (Child-of above at).is in
              let key = internal-key q k n is inner.internal in
              let lone = empty-nil cs empty in
              let root' = shrink (node (fields parent) (erase_child k (children parent))) up in
              let path : q ++ k ≡ q' ++ [] = sym e ∙ sym (append-nil q') in
              rw (few, empty, IsNode-key q k n is)
                (subst (λ x. Erased root x root') path
                  (shrink-Erased k (erase_child k (children parent)) r loc above
                    (gone-Less above at inner found leaf lone) (gone-count r loc above at key)))
          | inr some_left ↦
              rw (few, some_left)
                (shrink-Erased [] cs r (below k loc above at e) inner less
                  (inr (count-some cs some_left)))
        ]
      ]
