-- ===== src/RadixTree/Count.antt =====
-- The number of entries: what a change of the map of children and of one node does to it.
use Prim.Native.Nat.{Ordering}
use collection_of_mini_proje.Prelude.{
  ℕ, suc, ◌+◌, ◌≡◌, refl, ap, sym, ◌∙◌, false, some, List, [], ◌∷◌, length, arith, length-append,
}
use collection_of_mini_proje.RadixTree.Key.{Key, key_cmp}
use collection_of_mini_proje.RadixTree.Order.{rank, key_cmp_sound}
use collection_of_mini_proje.RadixTree.Node.{
  Node, node, Children, nil, cons, children, is_leaf, find_child, assign, erase_child, attach,
  write_back,
}
use collection_of_mini_proje.RadixTree.Spec.{contents, contents_of, under, IsNode, IsRoot}
use collection_of_mini_proje.RadixTree.Map.{Free}
use collection_of_mini_proje.RadixTree.Locations.{IsLoc, top, below}
use collection_of_mini_proje.RadixTree.Rebuild.{
  Fits, Child-of, attach-Fits, fields-attach, children-attach, IsNode-key,
}

rank_eq_of_cmp : (k j : Key) → key_cmp k j ≡ Ordering.eq → rank j ≡ rank k
rank_eq_of_cmp k j e = ap rank (sym (key_cmp_sound k j e))

module _ {T : Type 0} where
  abbrev pub total : Node T → ℕ
  total n = length (contents n)

  abbrev pub total_of : Children T → ℕ
  total_of cs = length (contents_of cs)

  length-under : (k : Key) (es : List (Key × T)) → length (under k es) ≡ length es
  length-under k [] = refl
  length-under k ((j, v) ∷ es) = ap suc (length-under k es)

  pub total-cons :
      (k : Key) (n : Node T) (cs : Children T) → total_of (cons k n cs) ≡ total n + total_of cs
  unfolding contents
  total-cons k n cs =
      length-append (under k (contents n)) (contents_of cs)
      ∙ ap (λ x. x + total_of cs) (length-under k (contents n))

  pub total-inner : (n : Node T) → is_leaf n ≡ false → total n ≡ total_of (children n)
  unfolding contents
  total-inner (node f cs) h = rw h

  pub total-assign-Free :
      (k : Key) (n : Node T) (cs : Children T)
      → Free (rank k) cs
      → total_of (assign k n cs) ≡ total_of cs + total n
  unfolding assign
  total-assign-Free k n nil h = omega (arith, total-cons k n nil)
  total-assign-Free k n (cons j c cs) h = ground (
    arith,
    total-assign-Free k n cs h.1,
    total-cons k n (cons j c cs),
    total-cons j c cs,
    total-cons j c (assign k n cs),
    rank_eq_of_cmp k j,
  )

  pub total-assign :
      (k : Key) (n c : Node T) (cs : Children T)
      → find_child k cs ≡ some c
      → total_of (assign k n cs) + total c ≡ total_of cs + total n
  unfolding assign find_child
  total-assign k n c nil h = cc
  total-assign k n c (cons j m cs) h = ground (
    arith,
    total-assign k n c cs,
    total-cons j n cs,
    total-cons j m cs,
    total-cons j m (assign k n cs),
    total_eq m c,
  )
    where
      total_eq : (m c : Node T) → some m ≡ some c → total m ≡ total c
      total_eq m c e = cc

  pub total-erase :
      (k : Key) (c : Node T) (cs : Children T)
      → find_child k cs ≡ some c
      → total_of (erase_child k cs) + total c ≡ total_of cs
  unfolding erase_child find_child
  total-erase k c nil h = cc
  total-erase k c (cons j m cs) h =
      ground (arith, total-erase k c cs, total-cons j m cs, total-cons j m (erase_child k cs))

  pub total-attach :
      (q k : Key) (n' c parent : Node T)
      → IsNode q k n'
      → is_leaf parent ≡ false
      → find_child k (children parent) ≡ some c
      → total (attach n' parent) + total c ≡ total parent + total n'
  total-attach q k n' c parent is h found =
      let leaf' : is_leaf (attach n' parent) ≡ false =
        ap (λ f. f.is_leaf) (fields-attach n' parent) ∙ h in
      rw
        (
          total-inner (attach n' parent) leaf',
          total-inner parent h,
          children-attach n' parent,
          IsNode-key q k n' is,
        )
        (total-assign k n' c (children parent) found)

  -- A parent with a new child of one entry.
  pub total-attach_new :
      (q k : Key) (c n : Node T)
      → IsNode q k c
      → is_leaf n ≡ false
      → Free (rank k) (children n)
      → total c ≡ 1
      → total (attach c n) ≡ total n + 1
  total-attach_new q k c n is h free one =
      let leaf' : is_leaf (attach c n) ≡ false = ap (λ f. f.is_leaf) (fields-attach c n) ∙ h in
      rw (total-inner (attach c n) leaf', total-inner n h, children-attach c n, IsNode-key q k c is)
        (omega (arith, total-assign-Free k c (children n) free))

  -- A change at one node changes the number of entries by as much.
  pub write_back-total :
      {root : Node T} {q : Key} {n : Node T} {up : List (Node T)} (n' : Node T)
      (loc : IsLoc root q n up)
      → IsRoot root
      → Fits loc n'
      → total (write_back n' up) + total n ≡ total root + total n'
  unfolding write_back
  write_back-total n' (top e) r fits = rw e (omega arith)
  write_back-total {root} n' (below {q} {parent} {c} {up} k loc inner found e) r fits =
      let child = Child-of inner found in
      let fits' = attach-Fits loc k n' r inner child.only fits in
      omega (
        arith,
        write_back-total (attach n' parent) loc r fits',
        total-attach q k n' c parent fits inner.internal found,
      )
