-- ===== src/RadixTree/Leaves.antt =====
-- The private `greedy_match`: the leaves below a node, in order, hold the entries below it.
use collection_of_mini_proje.Prelude.{
  ◌≡◌, inl, inr, refl, ap, false, Option, some, List, [], ◌∷◌, ◌++◌, append_assoc, append-nil,
}
use collection_of_mini_proje.RadixTree.Key.{Key}
use collection_of_mini_proje.RadixTree.Node.{Fields, Node, node, Children, nil, cons, fields}
use collection_of_mini_proje.RadixTree.Search.{greedy, greedy_children}
use collection_of_mini_proje.RadixTree.Spec.{contents, contents_of, under, IsNode, AreNodes}

module _ {T : Type 0} where
  -- What the leaves of a list hold.
  abbrev pub held : List (Node T) → List (Option (Key × T))
  held [] = []
  held (n ∷ ns) = (fields n).value ∷ held ns

  abbrev pub present : List (Key × T) → List (Option (Key × T))
  present [] = []
  present (e ∷ es) = some e ∷ present es

  pub held-append : (ns ms : List (Node T)) → held (ns ++ ms) ≡ held ns ++ held ms
  held-append [] ms = refl
  held-append (n ∷ ns) ms = ap (λ x. (fields n).value ∷ x) (held-append ns ms)

  present-append : (es fs : List (Key × T)) → present (es ++ fs) ≡ present es ++ present fs
  present-append [] fs = refl
  present-append (e ∷ es) fs = ap (λ x. some e ∷ x) (present-append es fs)

  pub under-append :
      (k : Key) (es fs : List (Key × T)) → under k (es ++ fs) ≡ under k es ++ under k fs
  under-append k [] fs = refl
  under-append k ((j, v) ∷ es) fs = ap (λ x. (k ++ j, v) ∷ x) (under-append k es fs)

  pub under-under : (q k : Key) (es : List (Key × T)) → under q (under k es) ≡ under (q ++ k) es
  under-under q k [] = refl
  under-under q k ((j, v) ∷ es) = rw (under-under q k es, append_assoc q k j)

  pub under-nil : (es : List (Key × T)) → under [] es ≡ es
  under-nil [] = refl
  under-nil ((j, v) ∷ es) = ap (λ x. (j, v) ∷ x) (under-nil es)

  pub contents-inner :
      (f : Fields T) (cs : Children T) → f.is_leaf ≡ false → contents (node f cs) ≡ contents_of cs
  unfolding contents
  contents-inner f cs h = rw h

  pub contents-cons :
      (k : Key) (c : Node T) (cs : Children T)
      → contents_of (cons k c cs) ≡ under k (contents c) ++ contents_of cs
  unfolding contents
  contents-cons k c cs = refl

  mutual
    unfolding greedy contents

    pub greedy-held :
        (p k : Key) (n : Node T)
        → IsNode p k n
        → held (greedy n) ≡ present (under (p ++ k) (contents n))
    greedy-held p k (node f cs) (_, _, inl l, _, _) =
        rw (l.leaf, l.holds, l.no_key, append-nil p, append-nil p)
    greedy-held p k (node f cs) (_, _, inr i, _, a) =
        rw (i.internal) (greedy_children-held (p ++ k) cs a)

    pub greedy_children-held :
        (q : Key) (cs : Children T)
        → AreNodes q cs
        → held (greedy_children cs) ≡ present (under q (contents_of cs))
    greedy_children-held q nil a = refl
    greedy_children-held q (cons k c cs) a = rw (
      held-append (greedy c) (greedy_children cs),
      greedy-held q k c a.0,
      greedy_children-held q cs a.1,
      under-append q (under k (contents c)) (contents_of cs),
      under-under q k (contents c),
      present-append (under (q ++ k) (contents c)) (under q (contents_of cs)),
    )
