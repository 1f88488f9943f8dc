-- ===== src/RadixTree/Roots.antt =====
-- The root after a change at one node, which `write_back` gives.
use collection_of_mini_proje.Prelude.{
  ◌≡◌, inl, inr, refl, ap, sym, subst, ◌∙◌, false, List, ◌++◌, length, drop, if◌then◌else◌,
  Bool-cases,
}
use collection_of_mini_proje.RadixTree.Key.{Key}
use collection_of_mini_proje.RadixTree.Order.{prefix, prefix-++, drop-++, prefix-split}
use collection_of_mini_proje.RadixTree.Node.{Node, is_leaf, attach, write_back}
use collection_of_mini_proje.RadixTree.Spec.{get, IsRoot}
use collection_of_mini_proje.RadixTree.Locations.{IsInner, IsLoc, top, below}
use collection_of_mini_proje.RadixTree.Rebuild.{
  Child-of, get-IsLoc, Fits, fields-attach, attach-Attached, attach-Fits, attach-search,
}

module _ {T : Type 0} where
  -- The root after a change, which only the keys through the changed node see.
  pub record Rebuilt (root : Node T) (q : Key) (n' root' : Node T) : Type 0 where
    pub is : IsRoot root'
    pub search :
        (j : Key) → get j root' ≡ (if prefix q j then get (drop (length q) j) n' else get j root)

  -- A change of the parent that only the keys through one child see.
  pub Rebuilt-below :
      {root parent : Node T} {q : Key} {up : List (Node T)} (k : Key) (n' parent' root' : Node T)
      → IsLoc root q parent up
      → IsInner q parent
      → ((r : Key)
          → get r parent' ≡ (if prefix k r then get (drop (length k) r) n' else get r parent))
      → Rebuilt root q parent' root'
      → Rebuilt root (q ++ k) n' root'
  Rebuilt-below {root} {parent} {q} k n' parent' root' loc inner child b = record {
    is = b.is;
    search = λ j.
        b.search j
        ∙ rw (prefix-++ q k j, drop-++ q k j)
            (elim (Bool-cases (prefix q j)) [
              | inl through ↦
                  let r = drop (length q) j in
                  let old : get j root ≡ get r parent =
                    ap (λ x. get x root) (sym (prefix-split q j through))
                    ∙ get-IsLoc r loc inner.internal in
                  rw (through, old) (child r)
              | inr other ↦ rw other
            ]);
  }

  pub write_back-Rebuilt :
      {root : Node T} {q : Key} {n : Node T} {up : List (Node T)} (n' : Node T)
      (loc : IsLoc root q n up)
      → IsRoot root
      → Fits loc n'
      → is_leaf n' ≡ false
      → Rebuilt root q n' (write_back n' up)
  unfolding write_back
  write_back-Rebuilt n' (top e) r fits h = record { is = fits; search = λ j. refl }
  write_back-Rebuilt {root} n' (below {q} {parent} {c} {up} k loc inner found e) r fits h =
      let child = Child-of inner found in
      let a = attach-Attached q k n' parent inner child.only fits in
      let leaf' : is_leaf (attach n' parent) ≡ false =
        ap (λ f. f.is_leaf) (fields-attach n' parent) ∙ inner.internal in
      let fits' = attach-Fits loc k n' r inner child.only fits in
      subst (λ x. Rebuilt root x n' (write_back (attach n' parent) up)) (sym e)
        (Rebuilt-below k n' (attach n' parent) (write_back (attach n' parent) up) loc inner
          (λ s. attach-search q k n' parent s inner child.only fits h)
          (write_back-Rebuilt (attach n' parent) loc r fits' leaf'))
