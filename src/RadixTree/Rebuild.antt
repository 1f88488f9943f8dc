-- ===== src/RadixTree/Rebuild.antt =====
-- A change at one node: the root that `write_back` gives, its invariant and its entries.
use collection_of_mini_proje.Prelude.{
  ◌≡◌, ◌⊎◌, inl, inr, refl, ap, sym, subst, ◌∙◌, true, false, none, some, List, [], ◌++◌, ◌==◌,
  length, drop, arith, if◌then◌else◌, Bool-cases, append_assoc,
}
use collection_of_mini_proje.RadixTree.Key.{Key}
use collection_of_mini_proje.RadixTree.Order.{
  rank, prefix, hits, prefix-append, drop-append, prefix-rank,
}
use collection_of_mini_proje.RadixTree.Node.{
  Node, node, Children, fields, children, is_leaf, key_of, find_child, assign, attach,
}
use collection_of_mini_proje.RadixTree.Spec.{get, get_in, Sorted, Compact, IsNode, AreNodes, IsRoot}
use collection_of_mini_proje.RadixTree.Map.{Only, get_in-assign, Sorted-assign, AreNodes-assign}
use collection_of_mini_proje.RadixTree.Child.{Child, find_child-Child, get_in_miss, Compact-assign}
use collection_of_mini_proje.RadixTree.Locations.{IsInner, IsLoc, top, below, internal-key}

module _ {T : Type 0} where
  -- An inner node searches its children.
  pub get-inner : (r : Key) (n : Node T) → is_leaf n ≡ false → get r n ≡ get_in r (children n)
  unfolding get
  get-inner r (node f cs) h = rw h

  pub Child-of :
      {q k : Key} {parent c : Node T}
      → IsInner q parent
      → find_child k (children parent) ≡ some c
      → Child q k c (children parent)
  Child-of {q} {k} {parent} {c} i h = find_child-Child q k c 0 (children parent) i.sorted i.nodes h

  -- The search for a key that begins with the path of a node goes through that node.
  pub get-IsLoc :
      {root : Node T} {q : Key} {n : Node T} {up : List (Node T)} (r : Key)
      → IsLoc root q n up
      → is_leaf n ≡ false
      → get (q ++ r) root ≡ get r n
  get-IsLoc r (top e) h = ap (get r) (sym e)
  get-IsLoc {root} r (below {q} {parent} {c} k loc inner found e) h =
      let child = Child-of inner found in
      let hit : hits k (k ++ r) ≡ true =
        ground (arith, prefix-append k r, prefix-rank k (k ++ r) (internal-key q k c child.is h)) in
      ap (λ x. get x root) (ap (λ x. x ++ r) e ∙ append_assoc q k r)
      ∙ get-IsLoc (k ++ r) loc inner.internal
      ∙ get-inner (k ++ r) parent inner.internal
      ∙ child.into (k ++ r) hit
      ∙ ap (λ x. get x c) (drop-append k r)

  -- `n'` can stand at the place of a location.
  abbrev pub Fits :
      {root : Node T} {q : Key} {n : Node T} {up : List (Node T)}
      → IsLoc root q n up
      → Node T
      → Type 0
  Fits (top e) n' = IsRoot n'
  Fits (below {q} k loc inner found e) n' = IsNode q k n'

  pub Fits-self :
      {root : Node T} {q : Key} {n : Node T} {up : List (Node T)} (loc : IsLoc root q n up)
      → IsRoot root
      → Fits loc n
  Fits-self (top e) r = subst IsRoot (sym e) r
  Fits-self (below k loc inner found e) r = (Child-of inner found).is

  IsNode-children :
      (p k : Key) (n : Node T) (cs : Children T)
      → IsNode p k n
      → is_leaf n ≡ false
      → Compact cs
      → Sorted 0 cs
      → AreNodes (p ++ k) cs
      → IsNode p k (node (fields n) cs)
  IsNode-children p k (node f old) cs (key, depth, kind, _, _) h compact s a = (
    key,
    depth,
    elim kind [
      | inl l ↦ cc (l.leaf)
      | inr i ↦ inr (record { internal = h; has_key = i.has_key; compact = compact })
    ],
    s,
    a,
  )

  -- Other children of a node that stays where it is.
  pub Fits-children :
      {root : Node T} {q : Key} {n : Node T} {up : List (Node T)} (loc : IsLoc root q n up)
      (cs : Children T)
      → Fits loc n
      → is_leaf n ≡ false
      → (up ≡ []) ⊎ Compact cs
      → Sorted 0 cs
      → AreNodes q cs
      → Fits loc (node (fields n) cs)
  Fits-children (top e) cs r h compact s a = record {
    key = r.key;
    depth = r.depth;
    internal = h;
    sorted = s;
    nodes = a;
  }
  Fits-children (below {q} {c = c} k loc inner found e) cs is h compact s a = elim compact [
    | inl never ↦ cc
    | inr ok ↦ IsNode-children q k c cs is h ok s (subst (λ x. AreNodes x cs) e a)
  ]

  pub fields-attach : (n' parent : Node T) → fields (attach n' parent) ≡ fields parent
  unfolding attach
  fields-attach n' (node f cs) = refl

  pub children-attach :
      (n' parent : Node T) → children (attach n' parent) ≡ assign (key_of n') n' (children parent)
  unfolding attach
  children-attach n' (node f cs) = refl

  pub attach_lem :
      (n' parent : Node T)
      → attach n' parent ≡ node (fields parent) (assign (key_of n') n' (children parent))
  unfolding attach
  attach_lem n' (node f cs) = refl

  pub IsNode-key : (p k : Key) (n : Node T) → IsNode p k n → key_of n ≡ k
  IsNode-key p k (node f cs) is = is.0

  -- A changed child in its old place: the parent.
  pub record Attached (q k : Key) (n' parent : Node T) : Type 0 where
    pub sorted : Sorted 0 (children (attach n' parent))
    pub nodes : AreNodes q (children (attach n' parent))
    pub search :
        (r : Key)
        → get_in r (children (attach n' parent)) ≡ (
            if rank r == rank k
            then (if prefix k r then get (drop (length k) r) n' else none)
            else get_in r (children parent))

  pub attach-Attached :
      (q k : Key) (n' parent : Node T)
      → IsInner q parent
      → Only k (children parent)
      → IsNode q k n'
      → Attached q k n' parent
  unfolding attach
  attach-Attached q k n' (node f cs) i only is =
      let key = IsNode-key q k n' is in
      record {
        sorted = rw key (Sorted-assign k n' 0 cs i.sorted only (omega arith));
        nodes = rw key (AreNodes-assign q k n' cs i.nodes is);
        search = λ r. rw key (get_in-assign r k n' 0 cs i.sorted only);
      }

  pub IsNode-Compact :
      (p k : Key) (n : Node T) → IsNode p k n → is_leaf n ≡ false → Compact (children n)
  IsNode-Compact p k (node f cs) (_, _, kind, _, _) h = elim kind [
    | inl l ↦ cc (l.leaf)
    | inr i ↦ i.compact
  ]

  pub Fits-Compact :
      {root : Node T} {q : Key} {n : Node T} {up : List (Node T)} (loc : IsLoc root q n up)
      → Fits loc n
      → is_leaf n ≡ false
      → (up ≡ []) ⊎ Compact (children n)
  Fits-Compact (top e) fits h = inl refl
  Fits-Compact (below {q} {c = c} k loc inner found e) fits h = inr (IsNode-Compact q k c fits h)

  -- A parent that gets a child, or a changed one, still fits.
  pub attach-Fits :
      {root parent : Node T} {q : Key} {up : List (Node T)} (loc : IsLoc root q parent up) (k : Key)
      (n' : Node T)
      → IsRoot root
      → IsInner q parent
      → Only k (children parent)
      → IsNode q k n'
      → Fits loc (attach n' parent)
  attach-Fits {parent} {q} {up} loc k n' r inner only is =
      let a = attach-Attached q k n' parent inner only is in
      let cs = assign (key_of n') n' (children parent) in
      let self = Fits-self loc r in
      let compact : (up ≡ []) ⊎ Compact cs = elim (Fits-Compact loc self inner.internal) [
        | inl e ↦ inl e
        | inr c ↦ inr (Compact-assign (key_of n') n' (children parent) c)
      ] in
      subst (Fits loc) (sym (attach_lem n' parent)) (
        Fits-children loc cs self inner.internal compact
          (subst (Sorted 0) (children-attach n' parent) a.sorted)
          (subst (AreNodes q) (children-attach n' parent) a.nodes))

  -- With a child that is no leaf, only the keys that begin with its key are looked up in it.
  pub attach-search :
      (q k : Key) (n' parent : Node T) (r : Key)
      → IsInner q parent
      → Only k (children parent)
      → IsNode q k n'
      → is_leaf n' ≡ false
      → get r (attach n' parent) ≡ (if prefix k r then get (drop (length k) r) n' else get r parent)
  attach-search q k n' parent r i only is h =
      let a = attach-Attached q k n' parent i only is in
      let leaf' : is_leaf (attach n' parent) ≡ false =
        ap (λ f. f.is_leaf) (fields-attach n' parent) ∙ i.internal in
      rw (get-inner r (attach n' parent) leaf', a.search r, get-inner r parent i.internal)
        (elim (Bool-cases (prefix k r)) [
          | inl yes_prefix ↦
              let same : (rank r == rank k) ≡ true =
                ground (arith, prefix-rank k r (internal-key q k n' is h) yes_prefix) in
              rw (same, yes_prefix)
          | inr miss ↦ elim (Bool-cases (rank r == rank k)) [
            | inl same ↦
                rw (same, miss) (sym (get_in_miss k r (children parent) only (ground arith) miss))
            | inr apart ↦ rw (apart, miss)
          ]
        ])
