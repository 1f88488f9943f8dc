-- ===== src/RadixTree/Prepend/Adds.antt =====
-- `prepend` succeeds on the child that `find_node` returns, and adds the entry.
use collection_of_mini_proje.Prelude.{
  ℕ, ◌+◌, ◌<◌, ◌≡◌, ◌≢◌, inl, inr, refl, ap, sym, subst, ◌∙◌, false, some, List, [], ◌∷◌, ◌++◌,
  ◌==◌, length, arith, Bool-cases, ◌-◌,
}
use collection_of_mini_proje.RadixTree.Key.{Key}
use collection_of_mini_proje.RadixTree.Order.{rank, prefix}
use collection_of_mini_proje.RadixTree.Node.{
  Node, node, ok, Location, fields, children, is_leaf, find_child, nil,
}
use collection_of_mini_proje.RadixTree.Insert.{count_loop, split, cut, placed, prepend}
use collection_of_mini_proje.RadixTree.Spec.{IsNode, IsRoot, contents}
use collection_of_mini_proje.RadixTree.Locations.{IsInner, IsLoc, Found}
use collection_of_mini_proje.RadixTree.Rebuild.{IsNode-key, Child-of}
use collection_of_mini_proje.RadixTree.Count.{total, total-inner, total-cons, total-attach_new}
use collection_of_mini_proje.RadixTree.Append.{Inserted, Rebuilt-Inserted, length-++-sub}
use collection_of_mini_proje.RadixTree.Prepend.Common.{parts, count_loop-common}
use collection_of_mini_proje.RadixTree.Prepend.Upper.{lower, upper, IsNode-lower, split-IsNode}
use collection_of_mini_proje.RadixTree.Prepend.Place.{replace-Rebuilt, replaced-total}
use collection_of_mini_proje.RadixTree.Prepend.Pointer.{cut-Found}
use collection_of_mini_proje.RadixTree.Prepend.Entry.{
  new_child, above, split_lem, cut_lem, replaced-get, new_child-NewChild,
}

rank-++ : (h k j : Key) → h ≢ [] → rank (h ++ k) ≡ rank (h ++ j)
rank-++ [] k j ne = absurd (ne refl)
rank-++ (c ∷ h) k j ne = refl

rank_first : (h k : Key) → h ≢ [] → rank h ≡ rank (h ++ k)
rank_first [] k ne = absurd (ne refl)
rank_first (c ∷ h) k ne = refl

rank_pos : (h k : Key) → h ≢ [] → 0 < rank (h ++ k)
rank_pos [] k ne = absurd (ne refl)
rank_pos (c ∷ h) k ne = omega arith

length_ne : (h : Key) → h ≢ [] → (length h == 0) ≡ false
length_ne [] ne = absurd (ne refl)
length_ne (c ∷ h) ne = ground arith

module _ {T : Type 0} where
  pub IsNode-depth : (p k : Key) (n : Node T) → IsNode p k n → (fields n).depth ≡ length p
  IsNode-depth p k (node f cs) is = is.1

  -- The pointer that `split` returns leads to the new entry.
  split-value :
      (count : ℕ) (n parent : Node T) (up : List (Node T)) (val : Key × T)
      → (fields (split count n parent up val).1.0).value ≡ some val
  unfolding split cut placed
  split-value count n parent up val =
      elim (Bool-cases (count == (length val.0 - (fields n).depth))) [ inl e ↦ rw e | inr e ↦ rw e ]

  lower-total : (d : ℕ) (k : Key) (c : Node T) → total (lower d k c) ≡ total c
  unfolding contents
  lower-total d k (node f cs) = refl

  upper-total : (h k2 : Key) (d : ℕ) (n' : Node T) → total (upper h d k2 n') ≡ total n'
  upper-total h k2 d n' =
      total-inner (upper h d k2 n') refl ∙ total-cons k2 n' nil ∙ unfold contents in omega arith

  above-total :
      (q h k2 r2 : Key) (v : T) (c : Node T)
      → IsNode q (h ++ k2) c
      → is_leaf c ≡ false
      → k2 ≢ []
      → rank k2 ≢ rank r2
      → total (above q h k2 r2 v c) ≡ total c + 1
  above-total q h k2 r2 v c is deep ne2 apart =
      let d = length q + length h in
      let new = new_child-NewChild q h r2 v in
      omega (
        arith,
        total-attach_new (q ++ h) r2 (new_child q h r2 v) (upper h (length q) k2 (lower d k2 c))
            new.is refl (apart, tt) new.total,
        upper-total h k2 (length q) (lower d k2 c),
        lower-total d k2 c,
      )

  -- `prepend` returns, and its root has the new entry and all others.
  pub record Prepended (root : Node T) (l : Location T) (key : Key) (v : T) : Type 0 where
    pub result : Node T × Location T
    pub returned : prepend l (key, v) ≡ ok result
    pub inserted : Inserted root key v result.0
    pub points : (fields result.1.0).value ≡ some (key, v)
    pub leads : Found result.0 key result.1

  prepend_parts :
      {root parent c : Node T} {q : Key} {up : List (Node T)} (h k2 r2 : Key) (v : T)
      → IsRoot root
      → IsLoc root q parent up
      → IsInner q parent
      → find_child (h ++ k2) (children parent) ≡ some c
      → is_leaf c ≡ false
      → h ≢ []
      → k2 ≢ []
      → rank k2 ≢ rank r2
      → count_loop (length (h ++ k2)) 0 (length (h ++ r2)) (h ++ k2) (q ++ (h ++ r2)) (length q)
        ≡ length h
      → Prepended root (c, parent ∷ up) (q ++ (h ++ r2)) v
  unfolding prepend
  prepend_parts {root} {parent} {c} {q} {up} h k2 r2 v r loc inner found deep ne ne2 apart counted =
      let is = (Child-of inner found).is in
      let key = IsNode-key q (h ++ k2) c is in
      let depth = IsNode-depth q (h ++ k2) c is in
      let d = length q + length h in
      let m_is =
        split-IsNode q h k2 r2 (length q) v (lower d k2 c) (new_child q h r2 v) refl ne
          (IsNode-lower q h k2 d c is deep ne2 refl) (new_child-NewChild q h r2 v) apart in
      let rebuilt =
        replace-Rebuilt (h ++ k2) h (above q h k2 r2 v c) r loc inner found (rank_pos h k2 ne)
          (rank_first h k2 ne) m_is in
      record {
        result = split (length h) c parent up (q ++ (h ++ r2), v);
        returned = rw (key, depth, length-++-sub q (h ++ r2), counted, length_ne h ne);
        inserted =
            rw (split_lem q h k2 r2 v c parent up key depth, cut_lem q h k2 r2 v c parent up key)
              (Rebuilt-Inserted (h ++ r2) v loc inner.internal
                (λ s.
                  replaced-get h k2 r2 v s inner found deep ne ne2 apart (rank_first h k2 ne)
                    (rank_first h r2 ne))
                rebuilt.1
                (omega (
                  arith,
                  above-total q h k2 r2 v c is deep ne2 apart,
                  replaced-total (h ++ k2) h (above q h k2 r2 v c) inner found (rank_first h k2 ne)
                      m_is,
                ))
                rebuilt.0);
        points = split-value (length h) c parent up (q ++ (h ++ r2), v);
        leads = rw (split_lem q h k2 r2 v c parent up key depth) (
            cut-Found h k2 v r loc inner found key (IsNode-lower q h k2 d c is deep ne2 refl)
              (rank_pos h k2 ne) (rank_first h k2 ne) r2 m_is apart);
      }

  pub prepend-Prepended :
      {root parent c : Node T} {q : Key} {up : List (Node T)} (k rest : Key) (v : T)
      → IsRoot root
      → IsLoc root q parent up
      → IsInner q parent
      → find_child k (children parent) ≡ some c
      → is_leaf c ≡ false
      → rank k ≡ rank rest
      → prefix k rest ≡ false
      → Prepended root (c, parent ∷ up) (q ++ rest) v
  prepend-Prepended {root} {parent} {c} {q} {up} k rest v r loc inner found deep same part =
      let p = parts k rest part in
      let ne : p.h ≢ [] = λ e. p.apart (
        sym (ap rank (p.first ∙ ap (λ x. x ++ p.k2) e))
        ∙ same
        ∙ ap rank (p.second ∙ ap (λ x. x ++ p.r2) e)) in
      let counted : count_loop (length k) 0 (length rest) k (q ++ rest) (length q) ≡ length p.h =
        count_loop-common k [] rest q ∙ omega (arith, ap length p.is_common) in
      subst (λ x. Prepended root (c, parent ∷ up) (q ++ x) v) (sym p.second)
        (prepend_parts p.h p.k2 p.r2 v r loc inner
          (subst (λ x. find_child x (children parent) ≡ some c) p.first found) deep ne p.more
          p.apart
          (subst
            (λ x.
              count_loop (length x) 0 (length (p.h ++ p.r2)) x (q ++ (p.h ++ p.r2)) (length q)
              ≡ length p.h)
            p.first
            (subst (λ x. count_loop (length k) 0 (length x) k (q ++ x) (length q) ≡ length p.h)
              p.second counted)))
