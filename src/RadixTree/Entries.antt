-- ===== src/RadixTree/Entries.antt =====
-- In a tree that is well formed the search by first bytes finds what a scan of the entries finds.
use collection_of_mini_proje.Prelude.{
  ℕ, suc, ◌≡◌, inl, inr, refl, ap, sym, ◌∙◌, true, false, Option, none, some, List, [], ◌∷◌, ◌++◌,
  ◌==◌, length, drop, arith, if◌then◌else◌, Bool-cases,
}
use collection_of_mini_proje.RadixTree.Key.{Key}
use collection_of_mini_proje.RadixTree.Order.{rank, prefix, hits, prefix-rank}
use collection_of_mini_proje.RadixTree.Node.{Node, node, Children, nil, cons, Fields, is_leaf}
use collection_of_mini_proje.RadixTree.Spec.{
  get, get_in, contents, contents_of, under, lookup, Sorted, IsNode, AreNodes, IsRoot,
}
use collection_of_mini_proje.RadixTree.Map.{get_in_below}
use collection_of_mini_proje.RadixTree.Locate.{is_nil, is_nil_sound}
use collection_of_mini_proje.RadixTree.Locations.{leaf-key, internal-key}
use collection_of_mini_proje.RadixTree.NewChild.{key_eq-++, key_eq-nil, hits-nil}

module _ {T : Type 0} where
  abbrev or_else : Option T → Option T → Option T
  or_else none y = y
  or_else (some x) y = some x

  pub lookup-append :
      (r : Key) (es fs : List (Key × T)) → lookup r (es ++ fs) ≡ or_else (lookup r es) (lookup r fs)
  unfolding lookup
  lookup-append r [] fs = refl
  lookup-append r ((j, v) ∷ es) fs = ground (arith, lookup-append r es fs)

  pub lookup-under :
      (r k : Key) (es : List (Key × T))
      → lookup r (under k es) ≡ (if prefix k r then lookup (drop (length k) r) es else none)
  unfolding lookup
  lookup-under r k [] = ground arith
  lookup-under r k ((j, v) ∷ es) = rw (key_eq-++ k j r, lookup-under r k es) (ground arith)

  -- The one entry of a leaf.
  lookup-leaf :
      (p k : Key) (n : Node T)
      → IsNode p k n
      → is_leaf n ≡ true
      → (r : Key) → lookup r (contents n) ≡ (if is_nil r then get r n else none)
  unfolding lookup get contents
  lookup-leaf p k (node f cs) (_, _, inl l, _, _) h r = rw (h, l.holds, key_eq-nil)
  lookup-leaf p k (node f cs) (_, _, inr i, _, _) h r = cc (i.internal)

  or_else-none : (x : Option T) → or_else x none ≡ x
  or_else-none none = refl
  or_else-none (some x) = refl

  lookup-cons :
      (r k : Key) (c : Node T) (cs : Children T)
      → lookup r (contents_of (cons k c cs))
        ≡ or_else
            (if prefix k r then lookup (drop (length k) r) (contents c) else none)
            (lookup r (contents_of cs))
  unfolding contents
  lookup-cons r k c cs =
      lookup-append r (under k (contents c)) (contents_of cs)
      ∙ ap (λ x. or_else x (lookup r (contents_of cs))) (lookup-under r k (contents c))

  get_in-cons :
      (r k : Key) (c : Node T) (cs : Children T)
      → get_in r (cons k c cs) ≡ (if hits k r then get (drop (length k) r) c else get_in r cs)
  unfolding get
  get_in-cons r k c cs = refl

  -- The first child, and the others.
  module _ (q k : Key) (c : Node T) (cs : Children T) (is : IsNode q k c)
      (s : Sorted (suc (rank k)) cs) (r : Key)
      (others : get_in r cs ≡ lookup r (contents_of cs)) where
    others_none : rank r ≡ rank k → lookup r (contents_of cs) ≡ none
    others_none e = sym others ∙ get_in_below r (suc (rank k)) cs s (omega arith)

    leaf_first-lookup :
        is_leaf c ≡ true → get_in r (cons k c cs) ≡ lookup r (contents_of (cons k c cs))
    leaf_first-lookup h =
        let no_key = leaf-key q k c is h in
        rw (get_in-cons, lookup-cons, no_key, hits-nil, lookup-leaf q k c is h r)
          (elim (Bool-cases (is_nil r)) [
            | inl here ↦
                let gone = others_none (ap rank (is_nil_sound r here) ∙ sym (ap rank no_key)) in
                rw (here, gone, or_else-none)
            | inr there ↦ rw there others
          ])

    inner_first-lookup :
        is_leaf c ≡ false
        → ((t : Key) → get t c ≡ lookup t (contents c))
        → get_in r (cons k c cs) ≡ lookup r (contents_of (cons k c cs))
    inner_first-lookup h deep =
        rw (get_in-cons, lookup-cons)
          (elim (Bool-cases (prefix k r)) [
            | inl through ↦
                let same = prefix-rank k r (internal-key q k c is h) through in
                let hit : (rank k == rank r) ≡ true = ground arith in
                rw (hit, through, others_none same, or_else-none, deep)
            | inr other ↦ elim (Bool-cases (rank k == rank r)) [
              | inl same ↦ rw (same, other) others
              | inr apart ↦ rw (apart, other) others
            ]
          ])

  get_contents :
      (f : Fields T) (cs : Children T) (r : Key)
      → is_leaf (node f cs) ≡ false
      → get_in r cs ≡ lookup r (contents_of cs)
      → get r (node f cs) ≡ lookup r (contents (node f cs))
  unfolding get contents
  get_contents f cs r h ih = rw h ih

  get_in-nil : (r : Key) → get_in {T = T} r nil ≡ lookup r (contents_of nil)
  unfolding get contents lookup
  get_in-nil r = refl

  mutual
    get-lookup :
        (p k : Key) (n : Node T)
        → IsNode p k n
        → is_leaf n ≡ false
        → (r : Key) → get r n ≡ lookup r (contents n)
    get-lookup p k (node f cs) is h r =
        get_contents f cs r h (get_in-lookup (p ++ k) 0 cs is.3 is.4 r)

    get_in-lookup :
        (q : Key) (b : ℕ) (cs : Children T)
        → Sorted b cs
        → AreNodes q cs
        → (r : Key) → get_in r cs ≡ lookup r (contents_of cs)
    get_in-lookup q b nil s a r = get_in-nil r
    get_in-lookup q b (cons k c cs) s a r =
        let others = get_in-lookup q (suc (rank k)) cs s.1 a.1 r in
        elim (Bool-cases (is_leaf c)) [
          | inl leaf ↦ leaf_first-lookup q k c cs a.0 s.1 r others leaf
          | inr inner ↦
              inner_first-lookup q k c cs a.0 s.1 r others inner (λ t. get-lookup q k c a.0 inner t)
        ]

  -- At the root, for every key.
  pub root-lookup : (n : Node T) → IsRoot n → (r : Key) → get r n ≡ lookup r (contents n)
  root-lookup (node f cs) is r =
      get_contents f cs r is.internal (get_in-lookup [] 0 cs is.sorted is.nodes r)
