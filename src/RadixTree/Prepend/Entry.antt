-- ===== src/RadixTree/Prepend/Entry.antt =====
-- `prepend` adds the entry and changes no other.
use collection_of_mini_proje.Prelude.{
  ℕ, ◌+◌, ◌≡◌, ◌≢◌, inl, inr, refl, ap, sym, ◌∙◌, true, false, none, some, List, [], ◌∷◌, ◌++◌,
  ◌==◌, length, take, drop, arith, if◌then◌else◌, Bool-cases, append-nil, append_assoc,
  length-append,
}
use collection_of_mini_proje.RadixTree.Key.{Key, nul, key_eq}
use collection_of_mini_proje.RadixTree.Order.{rank, prefix, prefix-++, drop-++, prefix-rank}
use collection_of_mini_proje.RadixTree.Node.{
  Node, node, fields, children, is_leaf, key_of, new_node, assign, nil, attach, write_back,
  find_child,
}
use collection_of_mini_proje.RadixTree.Insert.{split, cut, placed}
use collection_of_mini_proje.RadixTree.Spec.{get, IsNode}
use collection_of_mini_proje.RadixTree.Child.{get_in_miss}
use collection_of_mini_proje.RadixTree.Locate.{is_nil}
use collection_of_mini_proje.RadixTree.Locations.{IsInner}
use collection_of_mini_proje.RadixTree.Rebuild.{attach_lem, Child-of, get-inner}
use collection_of_mini_proje.RadixTree.NewChild.{
  NewChild, leaf-NewChild, inner-NewChild, attach-NewChild, key_eq-++,
}
use collection_of_mini_proje.RadixTree.Append.{length-++-sub, substr-rest}
use collection_of_mini_proje.RadixTree.Prepend.Upper.{
  lower, upper, IsNode-lower, upper-IsInner, split-IsNode,
}
use collection_of_mini_proje.RadixTree.Prepend.Place.{replaced, replaced-search}

same_length : (h r2 : Key) → (length h == length (h ++ r2)) ≡ is_nil r2
same_length h [] = ground (arith, length-append h [])
same_length h (c ∷ r2) = ground (arith, length-append h (c ∷ r2))

take-++ : (h k : Key) → take (length h) (h ++ k) ≡ h
take-++ [] k = refl
take-++ (c ∷ h) k = ap (λ x. c ∷ x) (take-++ h k)

substr-deep : (q h r2 : Key) → take (length r2) (drop (length q + length h) (q ++ (h ++ r2))) ≡ r2
substr-deep q h r2 = rw (← length-append q h, ← append_assoc q h r2) (substr-rest (q ++ h) r2)

module _ {T : Type 0} where
  -- The new nodes below the cut.
  abbrev pub new_leaf : Key → ℕ → T → Node T
  new_leaf key d v = new_node nul d true (some (key, v)) nil

  abbrev pub new_inner : Key → ℕ → Key → T → Node T
  new_inner r2 d key v = new_node r2 d false none (assign nul (new_leaf key (length key) v) nil)

  -- The arguments of `cut`, by the parts of the two keys.
  pub split_lem :
      (q h k2 r2 : Key) (v : T) (c parent : Node T) (up : List (Node T))
      → key_of c ≡ h ++ k2
      → (fields c).depth ≡ length q
      → split (length h) c parent up (q ++ (h ++ r2), v)
        ≡ cut
            (is_nil r2)
            (length h)
            h
            (length q)
            k2
            (length q + length h)
            r2
            c
            parent
            up
            (q ++ (h ++ r2), v)
  unfolding split
  split_lem q h k2 r2 v c parent up key depth = rw (
    key,
    depth,
    length-++-sub q (h ++ r2),
    length-++-sub h k2,
    length-++-sub h r2,
    same_length h r2,
    take-++,
    substr-rest h k2,
    substr-deep q h r2,
  )

  abbrev pub new_child : Key → Key → Key → T → Node T
  new_child q h r2 v =
      if is_nil r2
      then new_leaf (q ++ (h ++ r2)) (length q + length h) v
      else new_inner r2 (length q + length h) (q ++ (h ++ r2)) v

  pub new_child-NewChild : (q h r2 : Key) (v : T) → NewChild (q ++ h) r2 v (new_child q h r2 v)
  new_child-NewChild q h [] v =
      leaf-NewChild (q ++ h) (length q + length h) (q ++ (h ++ [])) v (sym (length-append q h))
        (ap (λ x. q ++ x) (append-nil h))
  new_child-NewChild q h (x ∷ r2) v =
      inner-NewChild (q ++ h) (x ∷ r2) (length q + length h) (length (q ++ (h ++ x ∷ r2)))
        (q ++ (h ++ x ∷ r2)) v none (λ e. cc) (sym (length-append q h))
        (ap length (sym (append_assoc q h (x ∷ r2))) ∙ length-append (q ++ h) (x ∷ r2))
        (sym (append_assoc q h (x ∷ r2)))

  -- The node that `cut` puts in the child's place.
  abbrev pub above : Key → Key → Key → Key → T → Node T → Node T
  above q h k2 r2 v c =
      attach (new_child q h r2 v) (upper h (length q) k2 (lower (length q + length h) k2 c))

  pub cut_lem :
      (q h k2 r2 : Key) (v : T) (c parent : Node T) (up : List (Node T))
      → key_of c ≡ h ++ k2
      → (cut
          (is_nil r2)
          (length h)
          h
          (length q)
          k2
          (length q + length h)
          r2
          c
          parent
          up
          (q ++ (h ++ r2), v)).0
        ≡ write_back (replaced (h ++ k2) (above q h k2 r2 v c) parent) up
  unfolding cut placed assign
  cut_lem q h k2 [] v c parent up key = rw (← key) (ap (λ x. write_back x up) (attach_lem _ _))
  cut_lem q h k2 (x ∷ r2) v c parent up key =
      rw (← key) (ap (λ x. write_back x up) (attach_lem _ _))

  lower-get : (s : Key) (d : ℕ) (k : Key) (c : Node T) → get s (lower d k c) ≡ get s c
  unfolding get
  lower-get s d k (node f cs) = refl

  upper-get :
      (s h k2 : Key) (d : ℕ) (n' : Node T)
      → k2 ≢ []
      → get s (upper h d k2 n') ≡ (if prefix k2 s then get (drop (length k2) s) n' else none)
  unfolding get
  upper-get s h k2 d n' ne = elim (Bool-cases (prefix k2 s)) [
    | inl through ↦
        let same : (rank k2 == rank s) ≡ true = ground (arith, prefix-rank k2 s ne through) in
        rw (same, through)
    | inr other ↦ elim (Bool-cases (rank k2 == rank s)) [
      | inl same ↦ rw (same, other)
      | inr apart ↦ rw (apart, other)
    ]
  ]

  parent-get :
      {q : Key} {parent c : Node T} (k r : Key)
      → IsInner q parent
      → find_child k (children parent) ≡ some c
      → rank r ≡ rank k
      → get r parent ≡ (if prefix k r then get (drop (length k) r) c else none)
  parent-get {parent = parent} k r inner found same =
      let child = Child-of inner found in
      get-inner r parent inner.internal ∙ elim (Bool-cases (prefix k r)) [
        | inl through ↦ rw through (child.into r (ground arith))
        | inr other ↦ rw other (get_in_miss k r (children parent) child.only same other)
      ]

  -- What the place of the child finds: the new entry, and below the rest of the old key the
  -- child's.
  above-get :
      (q h k2 r2 s : Key) (v : T) (c : Node T)
      → IsNode q (h ++ k2) c
      → is_leaf c ≡ false
      → k2 ≢ []
      → rank k2 ≢ rank r2
      → get s (above q h k2 r2 v c)
        ≡ (if key_eq r2 s then some v else if prefix k2 s then get (drop (length k2) s) c else none)
  above-get q h k2 r2 s v c is inner ne apart =
      let d = length q + length h in
      let low = IsNode-lower q h k2 d c is inner ne refl in
      attach-NewChild (q ++ h) r2 v (new_child q h r2 v) (upper h (length q) k2 (lower d k2 c)) s
        (upper-IsInner q h k2 (length q) (lower d k2 c) refl low) (apart, tt)
        (new_child-NewChild q h r2 v)
      ∙ rw (upper-get s h k2 (length q) (lower d k2 c) ne, lower-get)

  -- The parent finds the new entry and all that it found.
  pub replaced-get :
      {q : Key} {parent c : Node T} (h k2 r2 : Key) (v : T) (r : Key)
      → IsInner q parent
      → find_child (h ++ k2) (children parent) ≡ some c
      → is_leaf c ≡ false
      → h ≢ []
      → k2 ≢ []
      → rank k2 ≢ rank r2
      → rank h ≡ rank (h ++ k2)
      → rank h ≡ rank (h ++ r2)
      → get r (replaced (h ++ k2) (above q h k2 r2 v c) parent)
        ≡ (if key_eq (h ++ r2) r then some v else get r parent)
  replaced-get {q} {parent} {c} h k2 r2 v r inner found deep ne ne2 apart same same2 =
      let is = (Child-of inner found).is in
      let d = length q + length h in
      let m_is =
        split-IsNode q h k2 r2 (length q) v (lower d k2 c) (new_child q h r2 v) refl ne
          (IsNode-lower q h k2 d c is deep ne2 refl) (new_child-NewChild q h r2 v) apart in
      rw
        (
          replaced-search (h ++ k2) h (above q h k2 r2 v c) r inner found same m_is,
          key_eq-++ h r2 r,
        )
        (elim (Bool-cases (rank r == rank (h ++ k2))) [
          | inl here ↦
              rw
                (
                  here,
                  parent-get (h ++ k2) r inner found (ground arith),
                  prefix-++ h k2 r,
                  drop-++ h k2 r,
                )
                (elim (Bool-cases (prefix h r)) [
                  | inl through ↦
                      rw (through, above-get q h k2 r2 (drop (length h) r) v c is deep ne2 apart)
                  | inr other ↦ rw other
                ])
          | inr away ↦ rw (away, away_prefix h r ne (ground arith))
        ])
    where
      away_prefix : (h r : Key) → h ≢ [] → (rank r == rank h) ≡ false → prefix h r ≡ false
      away_prefix h r ne away = elim (Bool-cases (prefix h r)) [
        | inl through ↦ ground (arith, prefix-rank h r ne through)
        | inr other ↦ other
      ]
