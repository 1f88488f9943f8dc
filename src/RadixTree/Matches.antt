-- ===== src/RadixTree/Matches.antt =====
-- `prefix_match` against the list of entries.
use collection_of_mini_proje.Prelude.{
  ◌-◌, ◌≡◌, ◌≢◌, inl, inr, refl, ap, sym, subst, ◌∙◌, Bool, true, false, not, some, List, [], ◌∷◌,
  ◌++◌, if◌then◌else◌, length, append_assoc, append-nil, Bool-cases,
}
use collection_of_mini_proje.RadixTree.Key.{Key, key_eq, radix_substr, radix_length}
use collection_of_mini_proje.RadixTree.Order.{rank, rank_zero, prefix}
use collection_of_mini_proje.RadixTree.Node.{
  Node, node, Tree, Location, Result, ok, failed, fields, children, is_leaf, find_child,
}
use collection_of_mini_proje.RadixTree.Search.{find_node, internal, greedy, prefix_match}
use collection_of_mini_proje.RadixTree.Spec.{
  contents, contents_of, entries, under, IsNode, IsRoot, IsTree, no_root, rooted,
}
use collection_of_mini_proje.RadixTree.Locate.{find_node_lem, is_nil, is_nil_sound}
use collection_of_mini_proje.RadixTree.Locations.{
  IsInner, IsLoc, top, below, Found, at_leaf, stuck, partial, internal-key,
}
use collection_of_mini_proje.RadixTree.Rebuild.{Child-of, IsNode-key}
use collection_of_mini_proje.RadixTree.Append.{length-++-sub, substr-rest}
use collection_of_mini_proje.RadixTree.Prepend.Adds.{IsNode-depth}
use collection_of_mini_proje.RadixTree.Leaves.{
  held, present, under-under, greedy-held, greedy_children-held,
}
use collection_of_mini_proje.RadixTree.Starting.{
  starting, starting-nil, starting-Free, starting-child, starting-IsLoc, contents-node,
}
use collection_of_mini_proje.RadixTree.Prefixes.{
  key_eq-take, prefix-longer, prefix-extend, prefix-split_off,
}

module _ {T : Type 0} where
  pub starting-whole :
      (s k : Key) (es : List (Key × T)) → prefix s k ≡ true → starting s (under k es) ≡ under k es
  unfolding starting
  starting-whole s k [] h = refl
  starting-whole s k ((j, v) ∷ es) h = rw (prefix-extend s k j h, starting-whole s k es h)

  starting-split_off :
      (s k : Key) (es : List (Key × T))
      → prefix s k ≡ false
      → prefix k s ≡ false
      → starting s (under k es) ≡ []
  unfolding starting
  starting-split_off s k [] h h' = refl
  starting-split_off s k ((j, v) ∷ es) h h' =
      rw (prefix-split_off s k j h h', starting-split_off s k es h h')

  -- The test of `prefix_match` at a node below the path `p`.
  abbrev test : Key → Node T → Bool
  test key n =
      let len = radix_length key - (fields n).depth in
      key_eq (radix_substr key (fields n).depth len) (radix_substr (fields n).key 0 len)

  test_lem :
      (p x : Key) (n : Node T)
      → (fields n).depth ≡ length p
      → test (p ++ x) n ≡ prefix x (fields n).key
  test_lem p x n e = rw (e, length-++-sub p x, substr-rest p x) (key_eq-take x (fields n).key)

  -- A node at the end of a path: its own key ends the path, and its leaves hold the entries there.
  pub record Standing (q : Key) (n : Node T) : Type 0 where
    pub p : Key
    pub path : q ≡ p ++ (fields n).key
    pub depth : (fields n).depth ≡ length p
    pub leaves : held (greedy n) ≡ present (under q (contents n))

  IsNode-Standing : (p k : Key) (n : Node T) → IsNode p k n → Standing (p ++ k) n
  IsNode-Standing p k (node f cs) is = record {
    p = p;
    path = ap (λ x. p ++ x) (sym is.0);
    depth = is.1;
    leaves = greedy-held p k (node f cs) is;
  }

  IsRoot-Standing : (n : Node T) → IsRoot n → Standing [] n
  unfolding greedy contents
  IsRoot-Standing (node f cs) r = record {
    p = [];
    path = sym r.key;
    depth = r.depth;
    leaves = rw (r.internal) (greedy_children-held [] cs r.nodes);
  }

  pub IsLoc-Standing :
      {root : Node T} {q : Key} {n : Node T} {up : List (Node T)}
      → IsRoot root
      → IsLoc root q n up
      → Standing q n
  IsLoc-Standing {root} r (top e) = subst (Standing []) (sym e) (IsRoot-Standing root r)
  IsLoc-Standing {n = n} r (below {q} k loc inner found e) =
      subst (λ x. Standing x n) (sym e) (IsNode-Standing q k n (Child-of inner found).is)

  -- The leaves that `prefix_match` takes at a node.
  abbrev taken : Key → Node T → List (Node T)
  taken key n = if not (test key n) then [] else greedy n

  abbrev Takes : Node T → Key → Node T → Type 0
  Takes root key n = held (taken key n) ≡ present (starting key (contents root))

  -- The key goes on behind the path of a node that has no child for the next byte, or ends there.
  stuck-Takes :
      {root : Node T} {q : Key} {n : Node T} {up : List (Node T)} (rest : Key)
      → IsRoot root
      → IsLoc root q n up
      → IsInner q n
      → (rest ≢ [] → starting rest (contents_of (children n)) ≡ [])
      → Takes root (q ++ rest) n
  stuck-Takes {root} {q} {n} rest r loc inner none_below =
      let s = IsLoc-Standing r loc in
      let tested : test (q ++ rest) n ≡ is_nil rest =
        ap (λ x. test x n) (ap (λ x. x ++ rest) s.path ∙ append_assoc s.p (fields n).key rest)
        ∙ test_lem s.p ((fields n).key ++ rest) n s.depth
        ∙ prefix-longer (fields n).key rest in
      rw (tested, starting-IsLoc rest loc inner.internal)
        (elim (Bool-cases (is_nil rest)) [
          | inl ends ↦ rw (ends, is_nil_sound rest ends, starting-nil) (s.leaves)
          | inr more ↦
              rw (more, contents-node n inner.internal, none_below (λ e. cc (ap is_nil e, more)))
        ])

  -- The key ends inside the key of a child, or leaves it.
  partial-Takes :
      {root c parent : Node T} {q : Key} {up : List (Node T)} (k rest : Key)
      → IsRoot root
      → IsLoc root q parent up
      → IsInner q parent
      → find_child k (children parent) ≡ some c
      → is_leaf c ≡ false
      → rank k ≡ rank rest
      → prefix k rest ≡ false
      → Takes root (q ++ rest) c
  partial-Takes {root} {c} {parent} {q} k rest r loc inner found deep same part =
      let is = (Child-of inner found).is in
      let s = IsNode-Standing q k c is in
      let some_left : rest ≢ [] =
        λ e. internal-key q k c is deep (rank_zero k (same ∙ ap rank e)) in
      let tested : test (q ++ rest) c ≡ prefix rest k =
        test_lem q rest c (IsNode-depth q k c is) ∙ ap (prefix rest) (IsNode-key q k c is) in
      rw
        (
          tested,
          starting-IsLoc rest loc inner.internal,
          contents-node parent inner.internal,
          starting-child rest q k c 0 (children parent) some_left inner.nodes inner.sorted found
              same,
        )
        (elim (Bool-cases (prefix rest k)) [
          | inl inside ↦
              rw (inside, starting-whole rest k (contents c) inside, under-under q k (contents c))
                (s.leaves)
          | inr outside ↦ rw (outside, starting-split_off rest k (contents c) outside part)
        ])

  pub inner_internal :
      (n : Node T) (up : List (Node T)) → is_leaf n ≡ false → internal (n, up) ≡ ok n
  unfolding internal
  inner_internal n [] h = rw h
  inner_internal n (p ∷ up) h = rw h

  Found-Takes :
      {root : Node T} {key : Key} {l : Location T}
      → IsRoot root
      → Found root key l
      → (n : Node T) × (internal l ≡ ok n) × Takes root key n
  unfolding internal
  Found-Takes {root} {key} r (at_leaf {c} {parent} q loc inner found e leaf) = (
    parent,
    rw leaf,
    subst (λ x. Takes root x parent) (append-nil q ∙ sym e)
        (stuck-Takes [] r loc inner (λ ne. absurd (ne refl))),
  )
  Found-Takes {root} {key} r (stuck {n} {up} q rest loc inner e free) = (
    n,
    inner_internal n up inner.internal,
    subst (λ x. Takes root x n) (sym e)
        (stuck-Takes rest r loc inner
          (λ ne. starting-Free rest q (children n) ne inner.nodes free)),
  )
  Found-Takes {root} {key} r (partial {c} q k rest loc inner found deep e same part) = (
    c,
    rw deep,
    subst (λ x. Takes root x c) (sym e) (partial-Takes k rest r loc inner found deep same part),
  )

  abbrev matched : Key → Result (Node T) → Result (List (Node T))
  matched key o = elim o [ failed ↦ failed | ok n ↦ ok (taken key n) ]

  prefix_match-taken :
      (key : Key) (t : Tree T) (root m : Node T)
      → t.root ≡ some root
      → internal (find_node key root 0 []) ≡ ok m
      → prefix_match key t ≡ ok (taken key m)
  unfolding prefix_match
  prefix_match-taken key t root m e h = rw e (ap (matched key) h)

  -- In a well-formed tree `prefix_match` never fails, and the leaves that it returns hold exactly the
  -- entries whose keys begin with its argument, in the order of the entries.
  pub prefix_match-starting :
      (key : Key) (t : Tree T)
      → IsTree t
      → (ns : List (Node T)) × (prefix_match key t ≡ ok ns)
        × (held ns ≡ present (starting key (entries t)))
  prefix_match-starting key t (no_root e _) =
      ([], unfold prefix_match in rw e, unfold entries starting in rw e)
  prefix_match-starting key t (rooted {n} e r _) =
      let (m, returned, takes) = Found-Takes r (find_node_lem n key r) in
      (taken key m, prefix_match-taken key t n m e returned, unfold entries in rw e takes)
