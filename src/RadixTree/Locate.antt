-- ===== src/RadixTree/Locate.antt =====
-- `find_node`: where its result stands in the tree, and what that says of the key.
use collection_of_mini_proje.Prelude.{
  ℕ, suc, ◌+◌, ◌-◌, ◌<◌, ◌≡◌, ◌≢◌, inl, inr, refl, ap, sym, subst, ◌∙◌, Bool, true, false, not,
  ◌&&◌, some, List, [], ◌∷◌, ◌++◌, ◌==◌, length, drop, arith, if◌then◌else◌, Bool-cases,
  append_assoc, append-nil, length-append,
}
use collection_of_mini_proje.RadixTree.Key.{Key, char_at}
use collection_of_mini_proje.RadixTree.Order.{
  rank, prefix, rank_zero, prefix-take, drop-append, prefix-split,
}
use collection_of_mini_proje.RadixTree.Node.{
  Fields, Node, node, Children, nil, cons, children, is_leaf, find_child,
}
use collection_of_mini_proje.RadixTree.Search.{find_node, scan}
use collection_of_mini_proje.RadixTree.Spec.{Sorted, IsNode, AreNodes, IsRoot}
use collection_of_mini_proje.RadixTree.Map.{Free}
use collection_of_mini_proje.RadixTree.Locations.{
  IsInner, IsLoc, top, below, Found, at_leaf, stuck, partial, IsNode-IsInner, IsRoot-IsInner,
  find_child-tail, find_child-head, leaf-key, internal-key,
}

char_at-append : (q rest : Key) → char_at (q ++ rest) (length q) ≡ char_at rest 0
unfolding char_at
char_at-append [] rest = refl
char_at-append (c ∷ q) rest = char_at-append q rest

abbrev pub is_nil : Key → Bool
is_nil [] = true
is_nil (c ∷ k) = false

length-nil : (rest : Key) → (length rest == 0) ≡ is_nil rest
length-nil [] = refl
length-nil (c ∷ rest) = ground arith

module _ {T : Type 0} where
  -- One round of the loop, by what is left of the key.
  scan-cons :
      (q rest k : Key) (c : Node T) (cs : Children T) (self : Node T) (up : List (Node T))
      → scan (q ++ rest) (cons k c cs) (length q) self up ≡ (
          if is_nil rest
          then (if is_leaf c then (c, self ∷ up) else scan (q ++ rest) cs (length q) self up)
          else if not (is_leaf c) && (char_at rest 0 == char_at k 0)
          then (if prefix k rest
              then find_node (q ++ rest) c (length q + length k) (self ∷ up)
              else (c, self ∷ up))
          else scan (q ++ rest) cs (length q) self up)
  unfolding find_node
  scan-cons q rest k c cs self up =
      let left : length (q ++ rest) - length q ≡ length rest =
        omega (arith, length-append q rest) in
      rw (left, length-nil, char_at-append, drop-append, prefix-take)

  scan-nil :
      (key : Key) (d : ℕ) (self : Node T) (up : List (Node T)) → scan key nil d self up ≡ (self, up)
  unfolding find_node
  scan-nil key d self up = refl

  find_node-scan :
      (key : Key) (f : Fields T) (cs : Children T) (d : ℕ) (up : List (Node T))
      → find_node key (node f cs) d up ≡ scan key cs d (node f cs) up
  unfolding find_node
  find_node-scan key f nil d up = refl
  find_node-scan key f (cons k c cs) d up = refl

pub is_nil_sound : (rest : Key) → is_nil rest ≡ true → rest ≡ []
is_nil_sound [] h = refl
is_nil_sound (c ∷ rest) h = cc

-- Two keys that are not empty have one rank if they begin with the same byte.
rank_eq :
    (k rest : Key)
    → k ≢ []
    → is_nil rest ≡ false
    → (char_at rest 0 == char_at k 0) ≡ (rank k == rank rest)
unfolding char_at
rank_eq [] rest h h' = absurd (h refl)
rank_eq (c ∷ k) [] h h' = cc
rank_eq (c ∷ k) (d ∷ rest) h h' = ground arith

is_nil-rank :
    (rest : Key) → (is_nil rest ≡ true → rank rest ≡ 0) × (is_nil rest ≡ false → 0 < rank rest)
is_nil-rank [] = (λ _. refl, λ h. cc)
is_nil-rank (c ∷ rest) = (λ h. cc, λ _. omega arith)

module _ {T : Type 0} (root : Node T) where
  -- One round of the loop, given what the later rounds and the call for the child find.
  scan-round :
      (k : Key) (c : Node T) (cs : Children T) (self : Node T) (up : List (Node T)) (q rest : Key)
      → IsLoc root q self up
      → IsInner q self
      → IsNode q k c
      → find_child k (children self) ≡ some c
      → (rank k ≢ rank rest → Found root (q ++ rest) (scan (q ++ rest) cs (length q) self up))
      → (is_leaf c ≡ false
          → prefix k rest ≡ true
          → Found root (q ++ rest) (find_node (q ++ rest) c (length q + length k) (self ∷ up)))
      → Found root (q ++ rest) (scan (q ++ rest) (cons k c cs) (length q) self up)
  scan-round k c cs self up q rest loc inner is found next inside =
      rw scan-cons (elim (Bool-cases (is_nil rest)) [
        | inl none_left ↦ elim (Bool-cases (is_leaf c)) [
          | inl leaf ↦
              let here : find_child [] (children self) ≡ some c =
                subst (λ x. find_child x (children self) ≡ some c) (leaf-key q k c is leaf) found in
              let whole : q ++ rest ≡ q =
                ap (λ x. q ++ x) (is_nil_sound rest none_left) ∙ append-nil q in
              rw (none_left, leaf) (at_leaf q loc inner here whole leaf)
          | inr deeper ↦
              rw (none_left, deeper)
                (next (λ e.
                  internal-key q k c is deeper (rank_zero k (e ∙ (is_nil-rank rest).0 none_left))))
        ]
        | inr some_left ↦ elim (Bool-cases (is_leaf c)) [
          | inl leaf ↦
              rw (some_left, leaf)
                (next (λ e.
                  let zero_rank : rank k ≡ 0 = ap rank (leaf-key q k c is leaf) in
                  omega (arith, (is_nil-rank rest).1 some_left)))
          | inr deeper ↦ elim (Bool-cases (rank k == rank rest)) [
            | inl shared ↦ elim (Bool-cases (prefix k rest)) [
              | inl whole ↦
                  rw
                    (
                      some_left,
                      deeper,
                      rank_eq k rest (internal-key q k c is deeper) some_left,
                      shared,
                      whole,
                    )
                    (inside deeper whole)
              | inr part ↦
                  rw
                    (
                      some_left,
                      deeper,
                      rank_eq k rest (internal-key q k c is deeper) some_left,
                      shared,
                      part,
                    )
                    (partial q k rest loc inner found deeper refl (ground arith) part)
            ]
            | inr apart ↦
                rw
                  (
                    some_left,
                    deeper,
                    rank_eq k rest (internal-key q k c is deeper) some_left,
                    apart,
                  )
                  (next (ground arith))
          ]
        ]
      ])

  mutual
    find_node-Found :
        (key : Key) (n : Node T) (d : ℕ) (up : List (Node T)) (q rest : Key)
        → IsLoc root q n up
        → IsInner q n
        → key ≡ q ++ rest
        → d ≡ length q
        → Found root key (find_node key n d up)
    find_node-Found key (node f cs) d up q rest loc inner e e' =
        rw (e, e', find_node-scan)
          (scan-Found cs (node f cs) up q rest 0 loc inner inner.sorted inner.nodes (λ j n h. h)
            (λ h. h))

    scan-Found :
        (cs : Children T) (self : Node T) (up : List (Node T)) (q rest : Key) (b : ℕ)
        → IsLoc root q self up
        → IsInner q self
        → Sorted b cs
        → AreNodes q cs
        → ((j : Key) (n : Node T)
            → find_child j cs ≡ some n
            → find_child j (children self) ≡ some n)
        → (Free (rank rest) cs → Free (rank rest) (children self))
        → Found root (q ++ rest) (scan (q ++ rest) cs (length q) self up)
    scan-Found nil self up q rest b loc inner s a into free =
        rw scan-nil (stuck q rest loc inner refl (free tt))
    scan-Found (cons k c cs) self up q rest b loc inner s a into free =
        scan-round k c cs self up q rest loc inner a.0 (into k c (find_child-head k c cs))
          (λ ne.
            scan-Found cs self up q rest (suc (rank k)) loc inner s.1 a.1
              (λ j n h. into j n (find_child-tail j k c n cs s.1 h)) (λ h. free (ne, h)))
          (λ deeper whole.
            find_node-Found (q ++ rest) c (length q + length k) (self ∷ up) (q ++ k)
              (drop (length k) rest) (below k loc inner (into k c (find_child-head k c cs)) refl)
              (IsNode-IsInner q k c a.0 deeper)
              (ap (λ x. q ++ x) (sym (prefix-split k rest whole)) ∙ sym (append_assoc q k _))
              (sym (length-append q k)))

  -- From a well-formed root, `find_node` returns a node of the tree with its ancestors, and it is
  -- one of three: the leaf of the key; a node whose path is a prefix of the key and that has no
  -- child for the next byte; or a child that shares the next byte, but whose whole key does not
  -- come next.
  pub find_node_lem : (key : Key) → IsRoot root → Found root key (find_node key root 0 [])
  find_node_lem key r =
      find_node-Found key root 0 [] [] key (top refl) (IsRoot-IsInner root r) refl refl
