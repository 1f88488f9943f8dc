-- ===== src/RadixTree/Starting.antt =====
-- The entries whose keys begin with a key, and where they stand in the tree.
use collection_of_mini_proje.Prelude.{
  ℕ, suc, ◌≡◌, ◌≢◌, inl, inr, refl, ap, sym, ◌∙◌, true, false, some, List, [], ◌∷◌, ◌++◌,
  if◌then◌else◌, arith, append_assoc, append-nil, Bool-cases,
}
use collection_of_mini_proje.RadixTree.Key.{Key}
use collection_of_mini_proje.RadixTree.Order.{rank, prefix}
use collection_of_mini_proje.RadixTree.Node.{
  Node, node, Children, nil, cons, children, is_leaf, find_child,
}
use collection_of_mini_proje.RadixTree.Spec.{contents, contents_of, under, Sorted, IsNode, AreNodes}
use collection_of_mini_proje.RadixTree.Map.{Free, Sorted-Free}
use collection_of_mini_proje.RadixTree.Child.{find_child-cases, find_child-rank}
use collection_of_mini_proje.RadixTree.Locations.{IsLoc, top, below, internal-key}
use collection_of_mini_proje.RadixTree.Rebuild.{Child-of}
use collection_of_mini_proje.RadixTree.Leaves.{
  under-under, under-nil, contents-inner, contents-cons,
}

pub prefix-cancel : (k s j : Key) → prefix (k ++ s) (k ++ j) ≡ prefix s j
prefix-cancel [] s j = refl
prefix-cancel (c ∷ k) s j = ground (arith, prefix-cancel k s j)

prefix-other : (s k j : Key) → s ≢ [] → k ≢ [] → rank k ≢ rank s → prefix s (k ++ j) ≡ false
prefix-other [] k j ns nk ne = absurd (ns refl)
prefix-other (c ∷ s) [] j ns nk ne = absurd (nk refl)
prefix-other (c ∷ s) (d ∷ k) j ns nk ne = ground arith

pub rank-append : (k s : Key) → k ≢ [] → rank k ≡ rank (k ++ s)
rank-append [] s h = absurd (h refl)
rank-append (c ∷ k) s h = refl

pub append_not_nil : (k s : Key) → k ≢ [] → (k ++ s) ≢ []
append_not_nil [] s h e = h refl
append_not_nil (c ∷ k) s h e = cc

module _ {T : Type 0} where
  unfoldable pub starting : Key → List (Key × T) → List (Key × T)
  starting s [] = []
  starting s ((j, v) ∷ es) = let rest = starting s es in if prefix s j then (j, v) ∷ rest else rest

  pub starting-nil : (es : List (Key × T)) → starting [] es ≡ es
  unfolding starting
  starting-nil [] = refl
  starting-nil ((j, v) ∷ es) = ap (λ x. (j, v) ∷ x) (starting-nil es)

  starting-append :
      (s : Key) (es fs : List (Key × T)) → starting s (es ++ fs) ≡ starting s es ++ starting s fs
  unfolding starting
  starting-append s [] fs = refl
  starting-append s ((j, v) ∷ es) fs = ground (arith, starting-append s es fs)

  pub starting-under :
      (k s : Key) (es : List (Key × T)) → starting (k ++ s) (under k es) ≡ under k (starting s es)
  unfolding starting
  starting-under k s [] = refl
  starting-under k s ((j, v) ∷ es) = rw (prefix-cancel k s j, starting-under k s es) (ground arith)

  pub starting-other :
      (s k : Key) (es : List (Key × T))
      → s ≢ []
      → k ≢ []
      → rank k ≢ rank s
      → starting s (under k es) ≡ []
  unfolding starting
  starting-other s k [] ns nk ne = refl
  starting-other s k ((j, v) ∷ es) ns nk ne =
      rw (prefix-other s k j ns nk ne, starting-other s k es ns nk ne)

  -- A leaf has no entry below it.
  starting-leaf :
      (s q k : Key) (c : Node T)
      → s ≢ []
      → IsNode q k c
      → is_leaf c ≡ true
      → starting s (under k (contents c)) ≡ []
  unfolding starting contents
  starting-leaf [] q k c ns is h = absurd (ns refl)
  starting-leaf (b ∷ s) q k (node f cs) ns (_, _, inl l, _, _) h = rw (l.leaf, l.holds, l.no_key)
  starting-leaf (b ∷ s) q k (node f cs) ns (_, _, inr i, _, _) h = cc (i.internal)

  starting-apart :
      (s q k : Key) (c : Node T)
      → s ≢ []
      → IsNode q k c
      → rank k ≢ rank s
      → starting s (under k (contents c)) ≡ []
  starting-apart s q k c ns is ne = elim (Bool-cases (is_leaf c)) [
    | inl leaf ↦ starting-leaf s q k c ns is leaf
    | inr deep ↦ starting-other s k (contents c) ns (internal-key q k c is deep) ne
  ]

  pub starting-Free :
      (s q : Key) (cs : Children T)
      → s ≢ []
      → AreNodes q cs
      → Free (rank s) cs
      → starting s (contents_of cs) ≡ []
  unfolding starting contents
  starting-Free s q nil ns a free = refl
  starting-Free s q (cons k c cs) ns a free = rw (
    starting-append s (under k (contents c)) (contents_of cs),
    starting-apart s q k c ns a.0 free.0,
    starting-Free s q cs ns a.1 free.1,
  )

  -- Only one child has entries that begin with the first byte of its key.
  pub starting-child :
      (s q k : Key) (c : Node T) (b : ℕ) (cs : Children T)
      → s ≢ []
      → AreNodes q cs
      → Sorted b cs
      → find_child k cs ≡ some c
      → rank k ≡ rank s
      → starting s (contents_of cs) ≡ starting s (under k (contents c))
  unfolding find_child
  starting-child s q k c b nil ns a sorted found same = cc
  starting-child s q k c b (cons j m cs) ns a sorted found same =
      rw (contents-cons, starting-append s (under j (contents m)) (contents_of cs))
        (elim (find_child-cases k j m c cs found) [
          | inl (e, e') ↦
              let free =
                Sorted-Free (rank s) (suc (rank j)) cs sorted.1 (omega (arith, same, ap rank e)) in
              rw (starting-Free s q cs ns a.1 free, append-nil)
                (ap (λ x. starting s (under x (contents m))) e
                  ∙ ap (λ x. starting s (under k (contents x))) e')
          | inr later ↦
              let bigger = find_child-rank k c (suc (rank j)) cs sorted.1 later in
              rw (starting-apart s q j m ns a.0 (λ e. omega (arith, same, e, bigger)))
                (starting-child s q k c (suc (rank j)) cs ns a.1 sorted.1 later same)
        ])

  pub contents-node : (n : Node T) → is_leaf n ≡ false → contents n ≡ contents_of (children n)
  contents-node (node f cs) h = contents-inner f cs h

  -- The entries that begin with the path of a node, and then `s`, are below that node.
  pub starting-IsLoc :
      {root : Node T} {q : Key} {n : Node T} {up : List (Node T)} (s : Key)
      → IsLoc root q n up
      → is_leaf n ≡ false
      → starting (q ++ s) (contents root) ≡ under q (starting s (contents n))
  starting-IsLoc {root} s (top e) h = ap (λ x. starting s (contents x)) (sym e) ∙ sym (under-nil _)
  starting-IsLoc {root} s (below {q} {q'} {parent} {c} k loc inner found e) h =
      let key = internal-key q k c (Child-of inner found).is h in
      let path : starting (q' ++ s) (contents root) ≡ starting (q ++ (k ++ s)) (contents root) =
        ap (λ x. starting x (contents root)) (ap (λ x. x ++ s) e ∙ append_assoc q k s) in
      path
      ∙ starting-IsLoc (k ++ s) loc inner.internal
      ∙ ap (λ x. under q (starting (k ++ s) x)) (contents-node parent inner.internal)
      ∙ ap (under q) (
          starting-child (k ++ s) q k c 0 (children parent) (append_not_nil k s key) inner.nodes
            inner.sorted found (rank-append k s key)
          ∙ starting-under k s (contents c))
      ∙ under-under q k (starting s (contents c))
      ∙ ap (λ x. under x (starting s (contents c))) (sym e)
