-- ===== src/RadixTree/Climb.antt =====
-- The walk of `longest_match` towards the root.
use collection_of_mini_proje.Prelude.{
  ℕ, suc, ◌<◌, ◌≡◌, ◌≢◌, inl, inr, refl, ap, sym, subst, ◌∙◌, true, false, Option, none, some, List,
  [], ◌∷◌, ◌++◌, arith, length, append-nil, Bool-cases, Option-cases,
}
use collection_of_mini_proje.RadixTree.Key.{Key, key_cmp}
use collection_of_mini_proje.RadixTree.Order.{rank, prefix, prefix-append, prefix-rank}
use collection_of_mini_proje.RadixTree.Node.{
  Node, Children, nil, cons, Location, fields, children, is_leaf, find_child,
}
use collection_of_mini_proje.RadixTree.Search.{climb}
use collection_of_mini_proje.RadixTree.Spec.{get, get_in, Sorted}
use collection_of_mini_proje.RadixTree.Map.{get_in_below}
use collection_of_mini_proje.RadixTree.Child.{get_in_miss}
use collection_of_mini_proje.RadixTree.Locations.{IsInner, IsLoc, top, below, at_leaf, internal-key}
use collection_of_mini_proje.RadixTree.Rebuild.{Child-of, get-inner, get-IsLoc}
use collection_of_mini_proje.RadixTree.Lookup.{Found-Answer}
use collection_of_mini_proje.RadixTree.Prefixes.{
  prefix-extend, prefix-cases, prefix-length, prefix-both,
}

module _ {T : Type 0} where
  -- The iterator, for a search: null if no prefix of the key has a value; else it leads to a prefix
  -- of the key and its value, and no longer prefix has a value.
  abbrev pub Longest : Key → (Key → Option T) → Option (Location T) → Type 0
  Longest key g none = (j : Key) → prefix j key ≡ true → g j ≡ none
  Longest key g (some l) =
      (j : Key) × (v : T) × ((fields l.0).value ≡ some (j, v))
      × (g j ≡ some v)
      × (prefix j key ≡ true)
      × ((i : Key) → prefix i key ≡ true → length j < length i → g i ≡ none)

  pub Longest-extend :
      (q rest : Key) (g : Key → Option T) (o : Option (Location T))
      → ((s : Key) → s ≢ [] → prefix s rest ≡ true → g (q ++ s) ≡ none)
      → Longest q g o
      → Longest (q ++ rest) g o
  Longest-extend q rest g none gone h = λ j p. elim (prefix-cases j q rest p) [
    | inl short ↦ h j short
    | inr (s, e, ne, p') ↦ ap g e ∙ gone s ne p'
  ]
  Longest-extend q rest g (some l) gone (j, v, holds, found, p, longest) = (
    j,
    v,
    holds,
    found,
    prefix-extend j q rest p,
    λ i p' longer. elim (prefix-cases i q rest p') [
      | inl short ↦ longest i short longer
      | inr (s, e, ne, p'') ↦ ap g e ∙ gone s ne p''
    ],
  )

  pub Longest-here :
      (q : Key) (g : Key → Option T) (l : Location T) (v : T)
      → (fields l.0).value ≡ some (q, v)
      → g q ≡ some v
      → Longest q g (some l)
  Longest-here q g l v holds found = (
    q,
    v,
    holds,
    found,
    subst (λ x. prefix q x ≡ true) (append-nil q) (prefix-append q []),
    λ i p longer. absurd (omega (arith, prefix-length i q p, longer)),
  )

  -- Without a child under the empty key, a node has no value itself.
  get_in-no_leaf :
      (b : ℕ) (cs : Children T) → Sorted b cs → find_child [] cs ≡ none → get_in [] cs ≡ none
  unfolding get find_child key_cmp
  get_in-no_leaf b nil s h = refl
  get_in-no_leaf b (cons [] c cs) s h = cc
  get_in-no_leaf b (cons (x ∷ k) c cs) s h =
      let others = get_in_below [] (suc (suc x)) cs s.1 (omega arith) in ground (arith, others)

  climb_leaf :
      (n c : Node T) (up : List (Node T))
      → find_child [] (children n) ≡ some c
      → is_leaf c ≡ true
      → climb (n ∷ up) ≡ some (c, n ∷ up)
  unfolding climb
  climb_leaf n c up e h = rw (e, climb) (rw h)

  climb_up :
      (n : Node T) (up : List (Node T))
      → find_child [] (children n) ≡ none
      → climb (n ∷ up) ≡ climb up
  unfolding climb
  climb_up n up e = rw (e, climb)

  module _ (root : Node T) where
    -- No key that ends inside the key of a child has a value.
    pub inside_none :
        {q : Key} {parent c : Node T} {up : List (Node T)} (k s : Key)
        → IsLoc root q parent up
        → IsInner q parent
        → find_child k (children parent) ≡ some c
        → rank s ≡ rank k
        → prefix k s ≡ false
        → get (q ++ s) root ≡ none
    inside_none {q} {parent} k s loc inner found same miss =
        get-IsLoc s loc inner.internal
        ∙ get-inner s parent inner.internal
        ∙ get_in_miss k s (children parent) (Child-of inner found).only same miss

    node_none :
        {q : Key} {n : Node T} {up : List (Node T)}
        → IsLoc root q n up
        → IsInner q n
        → find_child [] (children n) ≡ none
        → get q root ≡ none
    node_none {q} {n} loc inner h =
        ap (λ x. get x root) (sym (append-nil q))
        ∙ get-IsLoc [] loc inner.internal
        ∙ get-inner [] n inner.internal
        ∙ get_in-no_leaf 0 (children n) inner.sorted h

    top_none : get [] root ≡ none → Longest [] (λ j. get j root) (climb {T = T} [])
    unfolding climb
    top_none h [] p = h
    top_none h (c ∷ j) p = cc

    climb_from :
        {q : Key} {n : Node T} {up : List (Node T)}
        → IsLoc root q n up
        → IsInner q n
        → (get q root ≡ none → Longest q (λ j. get j root) (climb up))
        → Longest q (λ j. get j root) (climb (n ∷ up))
    climb_from {q} {n} {up} loc inner above = elim (Option-cases (find_child [] (children n))) [
      | inr (c, found) ↦ elim (Bool-cases (is_leaf c)) [
        | inl leaf ↦ elim (Found-Answer (at_leaf q loc inner found refl leaf)) [
          | inl (_, (v, holds, value)) ↦
              rw (climb_leaf n c up found leaf)
                (Longest-here q (λ j. get j root) (c, n ∷ up) v holds value)
          | inr (deep, _) ↦ cc (leaf, deep)
        ]
        | inr deep ↦ absurd (internal-key q [] c (Child-of inner found).is deep refl)
      ]
      | inl no_leaf ↦ rw (climb_up n up no_leaf) (above (node_none loc inner no_leaf))
    ]

    above-Longest :
        {q : Key} {n : Node T} {up : List (Node T)}
        → IsLoc root q n up
        → IsInner q n
        → get q root ≡ none
        → Longest q (λ j. get j root) (climb up)
    above-Longest (top e) inner h = top_none h
    above-Longest (below {q} {q'} {parent} {c} {up} k loc above found e) inner h =
        subst (λ x. Longest x (λ j. get j root) (climb (parent ∷ up))) (sym e)
          (Longest-extend q k (λ j. get j root) (climb (parent ∷ up))
            (λ s ne p. elim (Bool-cases (prefix k s)) [
              | inl whole ↦
                  ap (λ x. get (q ++ x) root) (prefix-both s k p whole)
                  ∙ ap (λ x. get x root) (sym e)
                  ∙ h
              | inr miss ↦ inside_none k s loc above found (sym (prefix-rank s k ne p)) miss
            ])
            (climb_from loc above (λ none_here. above-Longest loc above none_here)))

    -- The walk from a node finds the longest prefix of its path.
    pub climb-Longest :
        {q : Key} {n : Node T} {up : List (Node T)}
        → IsLoc root q n up
        → IsInner q n
        → Longest q (λ j. get j root) (climb (n ∷ up))
    climb-Longest loc inner = climb_from loc inner (λ h. above-Longest loc inner h)
