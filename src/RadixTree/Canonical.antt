-- ===== src/RadixTree/Canonical.antt =====
-- The shape of a well-formed tree is determined by the map that it stands for.
use collection_of_mini_proje.Prelude.{
  ℕ, suc, ◌≡◌, ◌≢◌, inl, inr, refl, ap, sym, subst, ◌∙◌, true, some, List, [], ◌∷◌, ◌++◌, length,
  drop, arith,
}
use collection_of_mini_proje.RadixTree.Key.{Key}
use collection_of_mini_proje.RadixTree.Order.{rank, drop-append}
use collection_of_mini_proje.RadixTree.Node.{Fields, Node, node, Children, nil, cons, Tree}
use collection_of_mini_proje.RadixTree.Spec.{
  contents, contents_of, entries, lookup, under, Sorted, IsLeaf, IsNode, AreNodes, IsRoot, IsTree,
  no_root, rooted,
}
use collection_of_mini_proje.RadixTree.Leaves.{contents-inner}
use collection_of_mini_proje.RadixTree.Increasing.{
  From, Within, node-Within, children-From, entries_ext,
}
use collection_of_mini_proje.RadixTree.Greedy.{node_not_nil, under_not_nil, join_not_nil}
use collection_of_mini_proje.RadixTree.Branching.{same_key}

module _ {T : Type 0} where
  -- Two nodes with the same members, but for `m_value` where the node is not a leaf, and the same
  -- children.
  abbrev mutual
    pub Same : Node T → Node T → Type 0
    Same (node f cs) (node g ds) =
        (f.key ≡ g.key)
        × (f.depth ≡ g.depth)
        × (f.is_leaf ≡ g.is_leaf)
        × (f.is_leaf ≡ true → f.value ≡ g.value)
        × AllSame cs ds

    pub AllSame : Children T → Children T → Type 0
    AllSame nil nil = Unit
    AllSame nil (cons j d ds) = ⊥
    AllSame (cons k c cs) nil = ⊥
    AllSame (cons k c cs) (cons j d ds) = (k ≡ j) × Same c d × AllSame cs ds

  -- The entries that begin with one byte, and those behind them.
  pub part :
      (k : Key) (es fs gs hs : List (Key × T))
      → Within k es
      → From (suc (rank k)) fs
      → Within k gs
      → From (suc (rank k)) hs
      → es ++ fs ≡ gs ++ hs
      → (es ≡ gs) × (fs ≡ hs)
  part k [] fs [] hs w f w' f' e = (refl, e)
  part k [] fs ((i, v) ∷ gs) hs w f w' f' e =
      let f2 = subst (From (suc (rank k))) e f in absurd (omega (arith, f2.0, w'.0))
  part k ((i, v) ∷ es) fs [] hs w f w' f' e =
      let f2 = subst (From (suc (rank k))) (sym e) f' in absurd (omega (arith, f2.0, w.0))
  part k (x ∷ es) fs (y ∷ gs) hs w f w' f' e =
      let head : x ≡ y = cc in
      let tail : es ++ fs ≡ gs ++ hs = cc in
      let (h, t) = part k es fs gs hs w.1 f w'.1 f' tail in (cc, t)

  -- The entries that `under k` came from.
  under_inj : (k : Key) (es fs : List (Key × T)) → under k es ≡ under k fs → es ≡ fs
  under_inj k es fs e = sym (stripped es) ∙ ap strip e ∙ stripped fs
    where
      strip : List (Key × T) → List (Key × T)
      strip [] = []
      strip ((i, v) ∷ es) = (drop (length k) i, v) ∷ strip es

      stripped : (es : List (Key × T)) → strip (under k es) ≡ es
      stripped [] = refl
      stripped ((i, v) ∷ es) = rw (drop-append k i, stripped es)

  heads_rank :
      (k j : Key) (es fs gs hs : List (Key × T))
      → Within k es
      → Within j gs
      → es ≢ []
      → gs ≢ []
      → es ++ fs ≡ gs ++ hs
      → rank k ≡ rank j
  heads_rank k j [] fs gs hs w w' ne ne' e = absurd (ne refl)
  heads_rank k j (x ∷ es) fs [] hs w w' ne ne' e = absurd (ne' refl)
  heads_rank k j (x ∷ es) fs (y ∷ gs) hs w w' ne ne' e =
      let head : x ≡ y = cc in w.0 ∙ ap (λ z. rank z.0) head ∙ sym (w'.0)

  -- The first children of two nodes with the same entries.
  pub record Firsts (q k j : Key) (c d : Node T) (cs ds : Children T) : Type 0 where
    pub keys : k ≡ j
    pub inside : contents c ≡ contents d
    pub others : contents_of cs ≡ contents_of ds

  firsts :
      (q k j : Key) (c d : Node T) (cs ds : Children T)
      → IsNode q k c
      → IsNode q j d
      → Sorted (suc (rank k)) cs
      → Sorted (suc (rank j)) ds
      → AreNodes q cs
      → AreNodes q ds
      → contents_of (cons k c cs) ≡ contents_of (cons j d ds)
      → Firsts q k j c d cs ds
  unfolding contents
  firsts q k j c d cs ds is is' s s' a a' e =
      let in_k = node-Within q k c is in
      let in_j = node-Within q j d is' in
      let es = under k (contents c) in
      let gs = under j (contents d) in
      let same : rank k ≡ rank j =
        heads_rank k j es (contents_of cs) gs (contents_of ds) in_k in_j
          (under_not_nil k (contents c) (node_not_nil q k c is))
          (under_not_nil j (contents d) (node_not_nil q j d is')) e in
      let (firsts, rests) =
        part k es (contents_of cs) gs (contents_of ds) in_k (children-From q (suc (rank k)) cs s a)
          (weaken gs same in_j)
          (subst (λ r. From (suc r) (contents_of ds)) (sym same)
            (children-From q (suc (rank j)) ds s' a'))
          e in
      let keys = same_key q k j c d is is' same firsts in
      record {
        keys = keys;
        inside =
            under_inj k (contents c) (contents d)
              (firsts ∙ ap (λ x. under x (contents d)) (sym keys));
        others = rests;
      }
    where
      weaken : (gs : List (Key × T)) → rank k ≡ rank j → Within j gs → Within k gs
      weaken [] e w = tt
      weaken ((i, v) ∷ gs) e w = (e ∙ w.0, weaken gs e w.1)

  no_entry :
      (q k : Key) (c : Node T) (cs : Children T) → IsNode q k c → contents_of (cons k c cs) ≢ []
  unfolding contents
  no_entry q k c cs is =
      join_not_nil (under k (contents c)) (contents_of cs)
        (under_not_nil k (contents c) (node_not_nil q k c is))

  contents_nil : contents_of {T = T} nil ≡ []
  unfolding contents
  contents_nil = refl

  leaf_contents :
      (p k : Key) (f : Fields T) (cs : Children T) (l : IsLeaf p k f cs)
      → contents (node f cs) ≡ ([], l.v) ∷ []
  unfolding contents
  leaf_contents p k f cs l = rw (l.leaf, l.holds)

  same_one : (v w : T) → ◌≡◌ {A = List (Key × T)} (([], v) ∷ []) (([], w) ∷ []) → v ≡ w
  same_one v w e = cc

  -- Two leaves with the same entry.
  leaf_values :
      (p k : Key) (f g : Fields T) (cs ds : Children T) (l : IsLeaf p k f cs) (l' : IsLeaf p k g ds)
      → contents (node f cs) ≡ contents (node g ds)
      → f.value ≡ g.value
  leaf_values p k f g cs ds l l' e =
      let one = sym (leaf_contents p k f cs l) ∙ e ∙ leaf_contents p k g ds l' in
      let same = same_one l.v (l'.v) one in l.holds ∙ ap (λ x. some (p, x)) same ∙ sym (l'.holds)

  no_children : (cs ds : Children T) → cs ≡ nil → ds ≡ nil → AllSame cs ds
  no_children cs ds e e' = rw (e, e') tt

  mutual
    pub node-Same :
        (p k : Key) (n m : Node T)
        → IsNode p k n
        → IsNode p k m
        → contents n ≡ contents m
        → Same n m
    node-Same p k (node f cs) (node g ds) (e, d, inl l, s, a) (e', d', inl l', s', a') same = (
      e ∙ sym e',
      d ∙ sym d',
      l.leaf ∙ sym (l'.leaf),
      (λ h. leaf_values p k f g cs ds l l' same),
      no_children cs ds l.no_children l'.no_children,
    )
    node-Same p k (node f cs) (node g ds) (e, d, inl l, s, a) (e', d', inr i, s', a') same =
        absurd (i.has_key l.no_key)
    node-Same p k (node f cs) (node g ds) (e, d, inr i, s, a) (e', d', inl l, s', a') same =
        absurd (i.has_key l.no_key)
    node-Same p k (node f cs) (node g ds) (e, d, inr i, s, a) (e', d', inr i', s', a') same = (
      e ∙ sym e',
      d ∙ sym d',
      i.internal ∙ sym (i'.internal),
      λ h. cc (h, i.internal),
      children-AllSame (p ++ k) 0 0 cs ds s s' a a'
          (sym (contents-inner f cs i.internal) ∙ same ∙ contents-inner g ds i'.internal),
    )

    pub children-AllSame :
        (q : Key) (b b' : ℕ) (cs ds : Children T)
        → Sorted b cs
        → Sorted b' ds
        → AreNodes q cs
        → AreNodes q ds
        → contents_of cs ≡ contents_of ds
        → AllSame cs ds
    children-AllSame q b b' nil nil s s' a a' e = tt
    children-AllSame q b b' nil (cons j d ds) s s' a a' e =
        no_entry q j d ds a'.0 (sym e ∙ contents_nil)
    children-AllSame q b b' (cons k c cs) nil s s' a a' e = no_entry q k c cs a.0 (e ∙ contents_nil)
    children-AllSame q b b' (cons k c cs) (cons j d ds) s s' a a' e =
        let h = firsts q k j c d cs ds a.0 a'.0 s.1 s'.1 a.1 a'.1 e in
        (
          h.keys,
          node-Same q k c d a.0 (subst (λ x. IsNode q x d) (sym h.keys) a'.0) h.inside,
          children-AllSame q (suc (rank k)) (suc (rank j)) cs ds s.1 s'.1 a.1 a'.1 h.others,
        )

  root-Same : (n m : Node T) → IsRoot n → IsRoot m → contents n ≡ contents m → Same n m
  root-Same (node f cs) (node g ds) r r' e = (
    r.key ∙ sym (r'.key),
    r.depth ∙ sym (r'.depth),
    r.internal ∙ sym (r'.internal),
    λ h. cc (h, r.internal),
    children-AllSame [] 0 0 cs ds r.sorted r'.sorted r.nodes r'.nodes
        (sym (contents-inner f cs r.internal) ∙ e ∙ contents-inner g ds r'.internal),
  )

  entries-root : (t : Tree T) (n : Node T) → t.root ≡ some n → entries t ≡ contents n
  unfolding entries
  entries-root t n e = rw e

  -- The parts of a well-formed tree that has a root.
  IsTree-IsRoot : (t : Tree T) (n : Node T) → IsTree t → t.root ≡ some n → IsRoot n
  IsTree-IsRoot t n (no_root e _) h = cc (e, h)
  IsTree-IsRoot t n (rooted {n = m} e r _) h = let same : m ≡ n = cc in subst IsRoot same r

  -- Two well-formed trees with roots, in which every look-up gives the same, are the same but for the
  -- member `m_value` of nodes that are no leaves: the same keys, depths, leaves with their values, and
  -- children, whatever calls made them.
  pub lookup-Same :
      (t u : Tree T) (n m : Node T)
      → IsTree t
      → IsTree u
      → t.root ≡ some n
      → u.root ≡ some m
      → ((k : Key) → lookup k (entries t) ≡ lookup k (entries u))
      → Same n m
  lookup-Same t u n m is is' e e' h =
      root-Same n m (IsTree-IsRoot t n is e) (IsTree-IsRoot u m is' e')
        (sym (entries-root t n e) ∙ entries_ext t u is is' h ∙ entries-root u m e')
