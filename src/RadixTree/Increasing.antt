-- ===== src/RadixTree/Increasing.antt =====
-- The entries of a well-formed tree are in the order of `std::string`, and each key is there once.
use collection_of_mini_proje.Prelude.{
  ℕ, suc, ◌≤◌, ◌≡◌, ◌≢◌, inl, inr, refl, subst, true, List, [], ◌∷◌, ◌++◌, arith, length,
  Bool-cases,
}
use collection_of_mini_proje.RadixTree.Key.{Key}
use collection_of_mini_proje.RadixTree.Order.{rank}
use collection_of_mini_proje.RadixTree.Node.{Node, node, Children, nil, cons, Tree, is_leaf}
use collection_of_mini_proje.RadixTree.Spec.{
  contents, contents_of, entries, lookup, under, Sorted, IsNode, AreNodes, IsTree, no_root, rooted,
}
use collection_of_mini_proje.RadixTree.Locations.{internal-key}
use collection_of_mini_proje.RadixTree.Leaves.{contents-inner}
use collection_of_mini_proje.RadixTree.Starting.{rank-append}
use collection_of_mini_proje.RadixTree.Ascending.{
  Above, Ascending, Above-append, Ascending-under, key_cmp-lt, Ascending-ext,
}

module _ {T : Type 0} where
  -- The first bytes of the keys of a list are at least `b`.
  abbrev pub From : ℕ → List (Key × T) → Type 0
  From b [] = Unit
  From b ((j, v) ∷ es) = (b ≤ rank j) × From b es

  -- The first bytes are all that of `k`.
  abbrev pub Within : Key → List (Key × T) → Type 0
  Within k [] = Unit
  Within k ((j, v) ∷ es) = (rank k ≡ rank j) × Within k es

  From-append : (b : ℕ) (es fs : List (Key × T)) → From b es → From b fs → From b (es ++ fs)
  From-append b [] fs h h' = h'
  From-append b ((j, v) ∷ es) fs h h' = (h.0, From-append b es fs h.1 h')

  Within-From : (b : ℕ) (k : Key) (es : List (Key × T)) → Within k es → b ≤ rank k → From b es
  Within-From b k [] h le = tt
  Within-From b k ((j, v) ∷ es) h le = (omega (arith, h.0), Within-From b k es h.1 le)

  pub Within-under : (k : Key) (es : List (Key × T)) → k ≢ [] → Within k (under k es)
  Within-under k [] ne = tt
  Within-under k ((j, v) ∷ es) ne = (rank-append k j ne, Within-under k es ne)

  From-Above : (k : Key) (es : List (Key × T)) → From (suc (rank k)) es → Above k es
  From-Above k [] h = tt
  From-Above k ((j, v) ∷ es) h = (key_cmp-lt k j (omega (arith, h.0)), From-Above k es h.1)

  -- The entries of one child come before those of the next ones.
  Ascending-join :
      (k : Key) (es fs : List (Key × T))
      → Ascending es
      → Within k es
      → Ascending fs
      → From (suc (rank k)) fs
      → Ascending (es ++ fs)
  Ascending-join k [] fs a w b f = b
  Ascending-join k ((j, v) ∷ es) fs a w b f = (
    Above-append j es fs a.0 (From-Above j fs (subst (λ x. From (suc x) fs) w.0 f)),
    Ascending-join k es fs a.1 w.1 b f,
  )

  leaf-Within :
      (p k : Key) (n : Node T) → IsNode p k n → is_leaf n ≡ true → Within k (under k (contents n))
  unfolding contents
  leaf-Within p k (node f cs) (_, _, inl l, _, _) h = rw (l.leaf, l.holds, l.no_key) (refl, tt)
  leaf-Within p k (node f cs) (_, _, inr i, _, _) h = cc (h, i.internal)

  pub node-Within : (p k : Key) (n : Node T) → IsNode p k n → Within k (under k (contents n))
  node-Within p k n is = elim (Bool-cases (is_leaf n)) [
    | inl leaf ↦ leaf-Within p k n is leaf
    | inr deep ↦ Within-under k (contents n) (internal-key p k n is deep)
  ]

  pub children-From :
      (q : Key) (b : ℕ) (cs : Children T) → Sorted b cs → AreNodes q cs → From b (contents_of cs)
  unfolding contents
  children-From q b nil s a = tt
  children-From q b (cons k c cs) s a =
      From-append b (under k (contents c)) (contents_of cs)
        (Within-From b k (under k (contents c)) (node-Within q k c a.0) s.0)
        (later (contents_of cs) (children-From q (suc (rank k)) cs s.1 a.1))
    where
      later : (es : List (Key × T)) → From (suc (rank k)) es → From b es
      later [] h = tt
      later ((j, v) ∷ es) h = (omega (arith, h.0, s.0), later es h.1)

  mutual
    unfolding contents

    node-Ascending : (p k : Key) (n : Node T) → IsNode p k n → Ascending (contents n)
    node-Ascending p k (node f cs) (_, _, inl l, _, _) = rw (l.leaf, l.holds) (tt, tt)
    node-Ascending p k (node f cs) (_, _, inr i, s, a) =
        rw (i.internal) (children-Ascending (p ++ k) 0 cs s a)

    children-Ascending :
        (q : Key) (b : ℕ) (cs : Children T)
        → Sorted b cs
        → AreNodes q cs
        → Ascending (contents_of cs)
    children-Ascending q b nil s a = tt
    children-Ascending q b (cons k c cs) s a =
        Ascending-join k (under k (contents c)) (contents_of cs)
          (Ascending-under k (contents c) (node-Ascending q k c a.0)) (node-Within q k c a.0)
          (children-Ascending q (suc (rank k)) cs s.1 a.1)
          (children-From q (suc (rank k)) cs s.1 a.1)

  -- The entries of a well-formed tree are in strictly increasing order of their keys, as
  -- `std::string` compares them.
  pub entries-Ascending : (t : Tree T) → IsTree t → Ascending (entries t)
  unfolding entries
  entries-Ascending t (no_root e _) = rw e tt
  entries-Ascending t (rooted {n = node f cs} e r _) =
      rw (e, contents-inner f cs r.internal) (children-Ascending [] 0 cs r.sorted r.nodes)

  -- Two well-formed trees in which every look-up gives the same have the same entries, in the same
  -- order, whatever calls made them.
  pub entries_ext :
      (t u : Tree T)
      → IsTree t
      → IsTree u
      → ((k : Key) → lookup k (entries t) ≡ lookup k (entries u))
      → entries t ≡ entries u
  entries_ext t u is is' =
      Ascending-ext (entries t) (entries u) (entries-Ascending t is) (entries-Ascending u is')

  -- The entries of a tree are a list in order in which every look-up gives the same.
  pub entries-is :
      (t : Tree T) (es : List (Key × T))
      → IsTree t
      → Ascending es
      → ((k : Key) → lookup k (entries t) ≡ lookup k es)
      → entries t ≡ es
  entries-is t es is = Ascending-ext (entries t) es (entries-Ascending t is)

  pub size-entries : (t : Tree T) → IsTree t → t.size ≡ length (entries t)
  unfolding entries
  size-entries t (no_root e size) = rw e size
  size-entries t (rooted e r size) = rw e size
