-- ===== src/RadixTree/Branching.antt =====
-- The entries below a node that is not a leaf do not all begin with one byte: the key of the node is
-- as long as it can be.
use collection_of_mini_proje.Prelude.{
  ℕ, ◌<◌, ◌≡◌, ◌≢◌, inl, inr, refl, ap, sym, subst, ◌∙◌, true, false, List, [], ◌∷◌, ◌++◌, arith,
  Bool-cases,
}
use collection_of_mini_proje.RadixTree.Key.{Key}
use collection_of_mini_proje.RadixTree.Order.{rank, rank_zero, prefix, prefix-append, prefix-rank}
use collection_of_mini_proje.RadixTree.Node.{Node, node, Children, nil, cons, is_leaf}
use collection_of_mini_proje.RadixTree.Spec.{
  contents, contents_of, under, Sorted, Compact, IsNode, AreNodes,
}
use collection_of_mini_proje.RadixTree.Locations.{leaf-key, internal-key}
use collection_of_mini_proje.RadixTree.Leaves.{contents-inner}
use collection_of_mini_proje.RadixTree.Starting.{prefix-cancel}
use collection_of_mini_proje.RadixTree.Prefixes.{prefix-cases, prefix-both}
use collection_of_mini_proje.RadixTree.Increasing.{Within, node-Within}
use collection_of_mini_proje.RadixTree.Greedy.{node_not_nil, under_not_nil}

not_nil-rank : (s : Key) → s ≢ [] → 0 < rank s
not_nil-rank [] ne = absurd (ne refl)
not_nil-rank (c ∷ s) ne = omega arith

module _ {T : Type 0} where
  Within-left : (s : Key) (es fs : List (Key × T)) → Within s (es ++ fs) → Within s es
  Within-left s [] fs w = tt
  Within-left s ((j, v) ∷ es) fs w = (w.0, Within-left s es fs w.1)

  Within-right : (s : Key) (es fs : List (Key × T)) → Within s (es ++ fs) → Within s fs
  Within-right s [] fs w = w
  Within-right s ((j, v) ∷ es) fs w = Within-right s es fs w.1

  pub Within-rank :
      (s k : Key) (es : List (Key × T)) → Within s es → Within k es → es ≢ [] → rank s ≡ rank k
  Within-rank s k [] w w' ne = absurd (ne refl)
  Within-rank s k ((j, v) ∷ es) w w' ne = w.0 ∙ sym (w'.0)

  -- If the entries of some children all begin with the first byte of `s`, so does the key of the
  -- first child.
  first-rank :
      (s q k : Key) (c : Node T) (cs : Children T)
      → IsNode q k c
      → Within s (contents_of (cons k c cs))
      → rank s ≡ rank k
  unfolding contents
  first-rank s q k c cs is w =
      Within-rank s k (under k (contents c))
        (Within-left s (under k (contents c)) (contents_of cs) w) (node-Within q k c is)
        (under_not_nil k (contents c) (node_not_nil q k c is))

  rest-Within :
      (s k : Key) (c : Node T) (cs : Children T)
      → Within s (contents_of (cons k c cs))
      → Within s (contents_of cs)
  unfolding contents
  rest-Within s k c cs w = Within-right s (under k (contents c)) (contents_of cs) w

  Compact-branches :
      (s q : Key) (b : ℕ) (cs : Children T)
      → s ≢ []
      → Sorted b cs
      → AreNodes q cs
      → Within s (contents_of cs)
      → Compact cs
      → ⊥
  Compact-branches s q b nil ne sorted a w (inl two) = omega arith
  Compact-branches s q b nil ne sorted a w (inr leaf) = cc
  Compact-branches s q b (cons k c cs) ne sorted a w (inr leaf) =
      let same = first-rank s q k c cs a.0 w in
      let first : rank k ≡ 0 = ground arith in omega (arith, same, first, not_nil-rank s ne)
  Compact-branches s q b (cons k c nil) ne sorted a w (inl two) = omega arith
  Compact-branches s q b (cons k c (cons j d cs)) ne sorted a w (inl two) = omega (
    arith,
    first-rank s q k c (cons j d cs) a.0 w,
    first-rank s q j d cs a.1.0 (rest-Within s k c (cons j d cs) w),
    sorted.1.0,
  )

  node-branches :
      (s q k : Key) (c : Node T)
      → s ≢ []
      → IsNode q k c
      → is_leaf c ≡ false
      → Within s (contents c)
      → ⊥
  node-branches s q k (node f cs) ne (_, _, inl l, _, _) h w = cc (h, l.leaf)
  node-branches s q k (node f cs) ne (_, _, inr i, sorted, a) h w =
      Compact-branches s (q ++ k) 0 cs ne sorted a (subst (Within s) (contents-inner f cs h) w)
        i.compact

  -- Every key of a list begins with `j`.
  abbrev Begin : Key → List (Key × T) → Type 0
  Begin j [] = Unit
  Begin j ((i, v) ∷ es) = (prefix j i ≡ true) × Begin j es

  under-Begin : (j : Key) (es : List (Key × T)) → Begin j (under j es)
  under-Begin j [] = tt
  under-Begin j ((i, v) ∷ es) = (prefix-append j i, under-Begin j es)

  Begin-Within :
      (k s : Key) (es : List (Key × T)) → s ≢ [] → Begin (k ++ s) (under k es) → Within s es
  Begin-Within k s [] ne b = tt
  Begin-Within k s ((i, v) ∷ es) ne b =
      let p : prefix s i ≡ true = sym (prefix-cancel k s i) ∙ b.0 in
      (sym (prefix-rank s i ne p), Begin-Within k s es ne b.1)

  -- A key with which all entries below a node begin is a prefix of the node's key.
  common-prefix :
      (q j k : Key) (c : Node T)
      → IsNode q k c
      → is_leaf c ≡ false
      → (es : List (Key × T)) → contents c ≡ es
      → es ≢ []
      → Begin j (under k es)
      → prefix j k ≡ true
  common-prefix q j k c is h [] e ne b = absurd (ne refl)
  common-prefix q j k c is h ((i, v) ∷ es) e ne b = elim (prefix-cases j k i b.0) [
    | inl short ↦ short
    | inr (s, longer, some_more, _) ↦
        let all =
          Begin-Within k s ((i, v) ∷ es) some_more
            (subst (λ x. Begin x (under k ((i, v) ∷ es))) longer b) in
        absurd (node-branches s q k c some_more is h (subst (Within s) (sym e) all))
  ]

  -- Two nodes with the same path above them and the same entries have the same key.
  pub same_key :
      (q k j : Key) (c d : Node T)
      → IsNode q k c
      → IsNode q j d
      → rank k ≡ rank j
      → under k (contents c) ≡ under j (contents d)
      → k ≡ j
  same_key q k j c d is is' same e = elim (Bool-cases (is_leaf c)) [
    | inl leaf ↦
        let none_left = leaf-key q k c is leaf in
        none_left ∙ sym (rank_zero j (sym same ∙ ap rank none_left))
    | inr deep ↦ elim (Bool-cases (is_leaf d)) [
      | inl leaf ↦
          let none_left = leaf-key q j d is' leaf in
          absurd (internal-key q k c is deep (rank_zero k (same ∙ ap rank none_left)))
      | inr deep' ↦
          prefix-both k j
            (common-prefix q k j d is' deep' (contents d) refl (node_not_nil q j d is')
              (subst (Begin k) e (under-Begin k (contents c))))
            (common-prefix q j k c is deep (contents c) refl (node_not_nil q k c is)
              (subst (Begin j) (sym e) (under-Begin j (contents d))))
    ]
  ]
