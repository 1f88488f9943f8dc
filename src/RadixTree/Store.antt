-- ===== src/RadixTree/Store.antt =====
-- A write through the pointer to a leaf.
use collection_of_mini_proje.Prelude.{
  ℕ, suc, ◌≡◌, inl, inr, refl, ap, sym, subst, ◌∙◌, true, false, Option, none, some, List, [], ◌∷◌,
  ◌++◌, ◌==◌, if◌then◌else◌, arith, length, drop, append-nil, Bool-cases,
}
use collection_of_mini_proje.RadixTree.Key.{Key, key_eq}
use collection_of_mini_proje.RadixTree.Order.{rank, prefix, prefix-split}
use collection_of_mini_proje.RadixTree.Node.{
  Node, node, Location, fields, children, is_leaf, find_child, attach, write_back,
}
use collection_of_mini_proje.RadixTree.Insert.{store}
use collection_of_mini_proje.RadixTree.Spec.{get, get_in, IsNode, IsRoot}
use collection_of_mini_proje.RadixTree.Locations.{IsInner, IsLoc, Found, at_leaf, stuck, partial}
use collection_of_mini_proje.RadixTree.NewChild.{key_eq-++}
use collection_of_mini_proje.RadixTree.Rebuild.{
  Child-of, attach-Fits, attach-Attached, fields-attach, get-inner, get-IsLoc,
}
use collection_of_mini_proje.RadixTree.Roots.{write_back-Rebuilt}
use collection_of_mini_proje.RadixTree.Count.{total, total-attach, write_back-total}
use collection_of_mini_proje.RadixTree.Pruning.{total-leaf}

module _ {T : Type 0} (v : T) where
  -- A leaf with the value `v`.
  abbrev renewed : Node T → Node T
  renewed c =
      let value : Option (Key × T) = elim (fields c).value [
        | none ↦ none
        | some (k, w) ↦ some (k, v)
      ] in
      node (record (fields c) { value = value }) (children c)

  renewed_lem :
      (q : Key) (c : Node T)
      → IsNode q [] c
      → is_leaf c ≡ true
      → IsNode q [] (renewed c) × (get [] (renewed c) ≡ some v)
  unfolding get
  renewed_lem q (node f cs) (key, depth, inl l, s, a) h = (
    (
      key,
      depth,
      inl (record {
        leaf = l.leaf;
        no_key = l.no_key;
        no_children = l.no_children;
        v = v;
        holds = rw l.holds;
      }),
      s,
      a,
    ),
    rw (h, l.holds),
  )
  renewed_lem q (node f cs) (_, _, inr i, _, _) h = cc (i.internal)

  store-renewed :
      (c parent : Node T) (up : List (Node T))
      → store v (c, parent ∷ up) ≡ write_back (attach (renewed c) parent) up
  unfolding store write_back
  store-renewed (node f cs) parent up = refl

  -- The root with `v` as the value of a key that has one.
  pub record Stored (root : Node T) (key : Key) (root' : Node T) : Type 0 where
    pub is : IsRoot root'
    pub search : (j : Key) → get j root' ≡ (if key_eq key j then some v else get j root)
    pub same_total : total root' ≡ total root

  pick :
      (r : Key) (n parent : Node T)
      → get [] n ≡ some v
      → is_leaf parent ≡ false
      → (if rank r == rank []
          then (if prefix [] r then get (drop (length {A = ℕ} []) r) n else none)
          else get_in r (children parent))
        ≡ (if key_eq [] r then some v else get r parent)
  unfolding key_eq
  pick [] n parent e h = e
  pick (c ∷ r) n parent e h =
      let other : (suc c == 0) ≡ false = ground arith in rw other (sym (get-inner (c ∷ r) parent h))

  attach-renewed :
      (q r : Key) (c parent : Node T)
      → IsInner q parent
      → find_child [] (children parent) ≡ some c
      → is_leaf c ≡ true
      → get r (attach (renewed c) parent) ≡ (if key_eq [] r then some v else get r parent)
  attach-renewed q r c parent inner found leaf =
      let child = Child-of inner found in
      let (is, value) = renewed_lem q c child.is leaf in
      let a = attach-Attached q [] (renewed c) parent inner child.only is in
      let leaf' : is_leaf (attach (renewed c) parent) ≡ false =
        ap (λ f. f.is_leaf) (fields-attach (renewed c) parent) ∙ inner.internal in
      get-inner r (attach (renewed c) parent) leaf'
      ∙ a.search r
      ∙ pick r (renewed c) parent value inner.internal

  store-Stored :
      {root c parent : Node T} {q : Key} {up : List (Node T)}
      → IsRoot root
      → IsLoc root q parent up
      → IsInner q parent
      → find_child [] (children parent) ≡ some c
      → is_leaf c ≡ true
      → Stored root (q ++ []) (write_back (attach (renewed c) parent) up)
  store-Stored {root} {c} {parent} {q} r loc inner found leaf =
      let child = Child-of inner found in
      let (is, value) = renewed_lem q c child.is leaf in
      let fits = attach-Fits loc [] (renewed c) r inner child.only is in
      let leaf' : is_leaf (attach (renewed c) parent) ≡ false =
        ap (λ f. f.is_leaf) (fields-attach (renewed c) parent) ∙ inner.internal in
      let b = write_back-Rebuilt (attach (renewed c) parent) loc r fits leaf' in
      record {
        is = b.is;
        search = λ j.
            b.search j
            ∙ rw (key_eq-++ q [] j) (elim (Bool-cases (prefix q j)) [
              | inl through ↦
                  let s = drop (length q) j in
                  let old : get j root ≡ get s parent =
                    ap (λ x. get x root) (sym (prefix-split q j through))
                    ∙ get-IsLoc s loc inner.internal in
                  rw (through, old) (attach-renewed q s c parent inner found leaf)
              | inr other ↦ rw other
            ]);
        same_total = omega (
          arith,
          write_back-total (attach (renewed c) parent) loc r fits,
          total-attach q [] (renewed c) c parent is inner.internal found,
          total-leaf q [] c child.is leaf,
          total-leaf q [] (renewed c) is leaf,
        );
      }

  pub Found-Stored :
      {root : Node T} {key : Key} {l : Location T}
      → IsRoot root
      → Found root key l
      → is_leaf l.0 ≡ true
      → Stored root key (store v l)
  Found-Stored {root} r (at_leaf {c} {parent} {up} q loc inner found e leaf) h =
      rw (store-renewed c parent up) (
        subst (λ x. Stored root x (write_back (attach (renewed c) parent) up))
          (append-nil q ∙ sym e) (store-Stored r loc inner found leaf))
  Found-Stored r (stuck q rest loc inner e free) h = cc (h, inner.internal)
  Found-Stored r (partial q k rest loc inner found deep e same part) h = cc (h, deep)
