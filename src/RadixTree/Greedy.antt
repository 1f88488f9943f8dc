-- ===== src/RadixTree/Greedy.antt =====
-- `greedy_match` against the list of entries.
use collection_of_mini_proje.Prelude.{
  ◌<◌, ◌≡◌, ◌≢◌, ◌⊎◌, inl, inr, refl, ap, sym, subst, ◌∙◌, true, false, some, List, [], ◌∷◌, ◌++◌,
  arith, append_assoc, append-nil,
}
use collection_of_mini_proje.RadixTree.Key.{Key}
use collection_of_mini_proje.RadixTree.Order.{rank, prefix, prefix-append, prefix-rank}
use collection_of_mini_proje.RadixTree.Node.{
  Node, node, Children, nil, cons, Tree, Location, Result, ok, failed, children, is_leaf,
  find_child, count,
}
use collection_of_mini_proje.RadixTree.Search.{find_node, internal, greedy, greedy_match}
use collection_of_mini_proje.RadixTree.Spec.{
  contents, contents_of, entries, under, leaf_first, IsNode, AreNodes, IsRoot, IsTree, no_root,
  rooted,
}
use collection_of_mini_proje.RadixTree.Map.{Free}
use collection_of_mini_proje.RadixTree.Locate.{find_node_lem}
use collection_of_mini_proje.RadixTree.Locations.{
  IsInner, IsLoc, top, below, Found, at_leaf, stuck, partial,
}
use collection_of_mini_proje.RadixTree.Rebuild.{Child-of}
use collection_of_mini_proje.RadixTree.Prepend.Common.{parts}
use collection_of_mini_proje.RadixTree.Leaves.{held, present, under-under, greedy-held}
use collection_of_mini_proje.RadixTree.Starting.{
  starting, starting-nil, starting-Free, starting-child, starting-IsLoc, starting-under,
  starting-other, contents-node, rank-append, append_not_nil,
}
use collection_of_mini_proje.RadixTree.Matches.{starting-whole, IsLoc-Standing, inner_internal}

module _ {T : Type 0} where
  pub under_not_nil : (k : Key) (es : List (Key × T)) → es ≢ [] → under k es ≢ []
  under_not_nil k [] ne e = ne refl
  under_not_nil k ((j, v) ∷ es) ne e = cc

  pub join_not_nil : (es fs : List (Key × T)) → es ≢ [] → (es ++ fs) ≢ []
  join_not_nil [] fs ne e = ne refl
  join_not_nil (x ∷ es) fs ne e = cc

  -- Below each node there is an entry.
  mutual
    unfolding contents

    pub node_not_nil : (p k : Key) (n : Node T) → IsNode p k n → contents n ≢ []
    node_not_nil p k (node f cs) (_, _, inl l, _, _) = rw (l.leaf, l.holds) (λ e. cc)
    node_not_nil p k (node f cs) (_, _, inr i, _, a) =
        rw (i.internal) (children_not_nil (p ++ k) cs a i.compact)

    children_not_nil :
        (q : Key) (cs : Children T)
        → AreNodes q cs
        → (1 < count cs) ⊎ (leaf_first cs ≡ true)
        → contents_of cs ≢ []
    children_not_nil q nil a (inl h) = absurd (omega arith)
    children_not_nil q nil a (inr h) = cc
    children_not_nil q (cons k c cs) a h =
        join_not_nil (under k (contents c)) (contents_of cs)
          (under_not_nil k (contents c) (node_not_nil q k c a.0))

  -- The leaves are those of the entries that begin with `p`, the longest prefix of the key with which
  -- some entry begins; it is empty if none begins with the first byte of the key.
  pub record Nearest (key : Key) (es : List (Key × T)) (ns : List (Node T)) : Type 0 where
    pub p : Key
    pub rest : Key
    pub key_is : key ≡ p ++ rest
    pub leaves : held ns ≡ present (starting p es)
    pub begun : p ≢ [] → starting p es ≢ []
    pub longest : (s : Key) → s ≢ [] → prefix s rest ≡ true → starting (p ++ s) es ≡ []

  -- The entries that begin with the path of a node.
  starting-path :
      {root : Node T} {q : Key} {n : Node T} {up : List (Node T)}
      → IsLoc root q n up
      → is_leaf n ≡ false
      → starting q (contents root) ≡ under q (contents n)
  starting-path {root} {q} {n} loc h =
      ap (λ x. starting x (contents root)) (sym (append-nil q))
      ∙ starting-IsLoc [] loc h
      ∙ ap (under q) (starting-nil (contents n))

  path_begun :
      {root : Node T} {q : Key} {n : Node T} {up : List (Node T)}
      → IsLoc root q n up
      → is_leaf n ≡ false
      → q ≢ []
      → starting q (contents root) ≢ []
  path_begun (top e) h ne = absurd (ne refl)
  path_begun {q = q} {n} (below {q = q0} k loc inner found e) h ne =
      rw (starting-path (below k loc inner found e) h)
        (under_not_nil q (contents n) (node_not_nil q0 k n (Child-of inner found).is))

  -- The key ends at a node, or goes on where the node has no child.
  stuck-Nearest :
      {root : Node T} {q : Key} {n : Node T} {up : List (Node T)} (rest : Key)
      → IsRoot root
      → IsLoc root q n up
      → IsInner q n
      → ((s : Key) → s ≢ [] → prefix s rest ≡ true → starting s (contents_of (children n)) ≡ [])
      → Nearest (q ++ rest) (contents root) (greedy n)
  stuck-Nearest {root} {q} {n} rest r loc inner none_below = record {
    p = q;
    rest = rest;
    key_is = refl;
    leaves = (IsLoc-Standing r loc).leaves ∙ ap present (sym (starting-path loc inner.internal));
    begun = path_begun loc inner.internal;
    longest = λ s ne p.
        starting-IsLoc s loc inner.internal
        ∙ ap (λ x. under q (starting s x)) (contents-node n inner.internal)
        ∙ ap (under q) (none_below s ne p);
  }

  -- The key ends inside the key of a child, or leaves it.
  partial-Nearest :
      {root c parent : Node T} {q : Key} {up : List (Node T)} (k rest : Key)
      → IsLoc root q parent up
      → IsInner q parent
      → find_child k (children parent) ≡ some c
      → is_leaf c ≡ false
      → rank k ≡ rank rest
      → prefix k rest ≡ false
      → Nearest (q ++ rest) (contents root) (greedy c)
  partial-Nearest {root} {c} {parent} {q} k rest loc inner found deep same part =
      let is = (Child-of inner found).is in
      let d = parts k rest part in
      let h = d.h in
      let not_nil : h ≢ [] = λ e. d.apart (
        ap rank (sym (d.first ∙ ap (λ x. x ++ d.k2) e))
        ∙ same
        ∙ ap rank (d.second ∙ ap (λ x. x ++ d.r2) e)) in
      let in_child : (s : Key)
          → starting (q ++ (h ++ s)) (contents root)
            ≡ under q (starting (h ++ s) (under k (contents c))) =
        λ s.
          starting-IsLoc (h ++ s) loc inner.internal
          ∙ ap (λ x. under q (starting (h ++ s) x)) (contents-node parent inner.internal)
          ∙ ap (under q) (
              starting-child (h ++ s) q k c 0 (children parent) (append_not_nil h s not_nil)
                inner.nodes inner.sorted found
                (ap rank d.first ∙ sym (rank-append h d.k2 not_nil) ∙ rank-append h s not_nil)) in
      let whole : starting (q ++ h) (contents root) ≡ under (q ++ k) (contents c) =
        ap (λ x. starting (q ++ x) (contents root)) (sym (append-nil h))
        ∙ in_child []
        ∙ ap (λ x. under q (starting x (under k (contents c)))) (append-nil h)
        ∙ ap (under q)
            (starting-whole h k (contents c) (ap (prefix h) d.first ∙ prefix-append h d.k2))
        ∙ under-under q k (contents c) in
      record {
        p = q ++ h;
        rest = d.r2;
        key_is = ap (λ x. q ++ x) d.second ∙ sym (append_assoc q h d.r2);
        leaves = greedy-held q k c is ∙ ap present (sym whole);
        begun = λ _. rw whole (under_not_nil (q ++ k) (contents c) (node_not_nil q k c is));
        longest = λ s ne p.
            ap (λ x. starting x (contents root)) (append_assoc q h s)
            ∙ in_child s
            ∙ ap (λ x. under q (starting (h ++ s) x))
                (ap (λ x. under x (contents c)) d.first ∙ sym (under-under h d.k2 (contents c)))
            ∙ ap (under q) (
                starting-under h s (under d.k2 (contents c))
                ∙ ap (under h) (
                    starting-other s d.k2 (contents c) ne d.more
                      (λ e. d.apart (e ∙ sym (prefix-rank s d.r2 ne p)))));
      }

  Found-Nearest :
      {root : Node T} {key : Key} {l : Location T}
      → IsRoot root
      → Found root key l
      → (n : Node T) × (internal l ≡ ok n) × Nearest key (contents root) (greedy n)
  unfolding internal
  Found-Nearest {root} {key} r (at_leaf {parent} q loc inner found e leaf) = (
    parent,
    rw leaf,
    subst (λ x. Nearest x (contents root) (greedy parent)) (append-nil q ∙ sym e)
        (stuck-Nearest [] r loc inner (λ s ne p. absurd (no_prefix s ne p))),
  )
    where
      no_prefix : (s : Key) → s ≢ [] → prefix s [] ≢ true
      no_prefix [] ne p = ne refl
      no_prefix (c ∷ s) ne p = cc
  Found-Nearest {root} {key} r (stuck {n} {up} q rest loc inner e free) = (
    n,
    inner_internal n up inner.internal,
    subst (λ x. Nearest x (contents root) (greedy n)) (sym e)
        (stuck-Nearest rest r loc inner (λ s ne p.
          starting-Free s q (children n) ne inner.nodes
            (subst (λ x. Free x (children n)) (prefix-rank s rest ne p) free))),
  )
  Found-Nearest {root} {key} r (partial {c} q k rest loc inner found deep e same part) = (
    c,
    rw deep,
    subst (λ x. Nearest x (contents root) (greedy c)) (sym e)
        (partial-Nearest k rest loc inner found deep same part),
  )

  abbrev leaves_below : Result (Node T) → Result (List (Node T))
  leaves_below o = elim o [ failed ↦ failed | ok n ↦ ok (greedy n) ]

  greedy_match-below :
      (key : Key) (t : Tree T) (root m : Node T)
      → t.root ≡ some root
      → internal (find_node key root 0 []) ≡ ok m
      → greedy_match key t ≡ ok (greedy m)
  unfolding greedy_match
  greedy_match-below key t root m e h = rw e (ap leaves_below h)

  -- In a well-formed tree `greedy_match` never fails, and the leaves that it returns hold exactly the
  -- entries that begin with `p`, in the order of the entries, where `p` is the longest prefix of
  -- the key with which some entry begins, or empty.
  pub greedy_match-Nearest :
      (key : Key) (t : Tree T)
      → IsTree t
      → (ns : List (Node T)) × (greedy_match key t ≡ ok ns) × Nearest key (entries t) ns
  greedy_match-Nearest key t (no_root e _) = (
    [],
    unfold greedy_match in rw e,
    record {
      p = [];
      rest = key;
      key_is = refl;
      leaves = unfold entries starting in rw e;
      begun = λ ne. absurd (ne refl);
      longest = λ s ne p. unfold entries starting in rw e;
    },
  )
  greedy_match-Nearest key t (rooted {n} e r _) =
      let (m, returned, nearest) = Found-Nearest r (find_node_lem n key r) in
      (greedy m, greedy_match-below key t n m e returned, unfold entries in rw e nearest)
