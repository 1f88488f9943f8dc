-- ===== src/RadixTree/Append.antt =====
-- `append`: a new entry below a node whose path is a prefix of the key.
use collection_of_mini_proje.Prelude.{
  ◌+◌, ◌-◌, ◌≡◌, ◌≢◌, inl, inr, refl, ap, sym, subst, ◌∙◌, true, false, some, List, [], ◌∷◌, ◌++◌,
  ◌==◌, length, take, drop, arith, if◌then◌else◌, Bool-cases, append-nil, length-append,
}
use collection_of_mini_proje.RadixTree.Key.{Key, nul, key_eq}
use collection_of_mini_proje.RadixTree.Order.{rank, prefix, drop-append, prefix-split}
use collection_of_mini_proje.RadixTree.Node.{
  Node, Location, fields, children, is_leaf, new_node, nil, attach, write_back,
}
use collection_of_mini_proje.RadixTree.Insert.{placed, append}
use collection_of_mini_proje.RadixTree.Spec.{get, IsRoot}
use collection_of_mini_proje.RadixTree.Map.{Free, Free-Only}
use collection_of_mini_proje.RadixTree.Locate.{is_nil, is_nil_sound}
use collection_of_mini_proje.RadixTree.Locations.{IsInner, IsLoc}
use collection_of_mini_proje.RadixTree.Rebuild.{get-IsLoc, attach-Fits, fields-attach}
use collection_of_mini_proje.RadixTree.Roots.{write_back-Rebuilt, Rebuilt}
use collection_of_mini_proje.RadixTree.Count.{total, write_back-total, total-attach_new}
use collection_of_mini_proje.RadixTree.NewChild.{
  NewChild, leaf-NewChild, inner-NewChild, attach-NewChild, key_eq-++,
}

-- The root after a new entry.
pub record Inserted {T : Type 0} (root : Node T) (key : Key) (v : T) (root' : Node T) : Type 0 where
  pub is : IsRoot root'
  pub search : (j : Key) → get j root' ≡ (if key_eq key j then some v else get j root)
  pub one_more : total root' ≡ total root + 1

take-all : (k : Key) → take (length k) k ≡ k
take-all [] = refl
take-all (c ∷ k) = ap (λ x. c ∷ x) (take-all k)

pub length-++-sub : (q rest : Key) → length (q ++ rest) - length q ≡ length rest
length-++-sub q rest = omega (arith, length-append q rest)

pub substr-rest : (q rest : Key) → take (length rest) (drop (length q) (q ++ rest)) ≡ rest
substr-rest q rest = ap (take (length rest)) (drop-append q rest) ∙ take-all rest

pub is_nil-length : (rest : Key) → (length rest == 0) ≡ is_nil rest
is_nil-length [] = refl
is_nil-length (c ∷ rest) = ground arith

pub is_nil-ne : (rest : Key) → is_nil rest ≡ false → rest ≢ []
is_nil-ne [] h e = cc
is_nil-ne (c ∷ rest) h e = cc

module _ {T : Type 0} where
  -- A node on the key's path is replaced by one that has the new entry and is otherwise alike.
  pub Rebuilt-Inserted :
      {root n n' root' : Node T} {q : Key} {up : List (Node T)} (rest : Key) (v : T)
      → IsLoc root q n up
      → is_leaf n ≡ false
      → ((r : Key) → get r n' ≡ (if key_eq rest r then some v else get r n))
      → total root' + total n ≡ total root + total n'
      → total n' ≡ total n + 1
      → Rebuilt root q n' root'
      → Inserted root (q ++ rest) v root'
  Rebuilt-Inserted {root} {n} {q} rest v loc h search whole part b = record {
    one_more = omega arith;
    is = b.is;
    search = λ j.
        b.search j
        ∙ rw (key_eq-++ q rest j) (elim (Bool-cases (prefix q j)) [
          | inl through ↦
              let r = drop (length q) j in
              let old : get j root ≡ get r n =
                ap (λ x. get x root) (sym (prefix-split q j through)) ∙ get-IsLoc r loc h in
              rw (through, old) (search r)
          | inr other ↦ rw other
        ]);
  }

  -- A new child is hung below the node of a location.
  pub attach-Inserted :
      {root n : Node T} {q : Key} {up : List (Node T)} (rest : Key) (v : T) (c : Node T)
      → IsRoot root
      → IsLoc root q n up
      → IsInner q n
      → Free (rank rest) (children n)
      → NewChild q rest v c
      → Inserted root (q ++ rest) v (write_back (attach c n) up)
  attach-Inserted {n} {q} rest v c r loc inner free new =
      let leaf' : is_leaf (attach c n) ≡ false =
        ap (λ f. f.is_leaf) (fields-attach c n) ∙ inner.internal in
      let fits = attach-Fits loc rest c r inner (Free-Only rest (children n) free) new.is in
      Rebuilt-Inserted rest v loc inner.internal
        (λ s. attach-NewChild q rest v c n s inner free new)
        (write_back-total (attach c n) loc r fits)
        (total-attach_new q rest c n new.is inner.internal free new.total)
        (write_back-Rebuilt (attach c n) loc r fits leaf')

  pub append-Inserted :
      {root n : Node T} {q : Key} {up : List (Node T)} (rest : Key) (v : T)
      → IsRoot root
      → IsLoc root q n up
      → IsInner q n
      → Free (rank rest) (children n)
      → Inserted root (q ++ rest) v (append (n, up) (q ++ rest, v)).0
  unfolding append placed
  append-Inserted {root} {n} {q} {up} rest v r loc inner free =
      rw (inner.full, length-++-sub q rest, is_nil-length)
        (elim (Bool-cases (is_nil rest)) [
          | inl none_left ↦
              let e = is_nil_sound rest none_left in
              rw none_left (
                subst (λ x. Inserted root x v (write_back (attach (leaf_at (q ++ rest)) n) up))
                  (ap (λ x. q ++ x) (sym e))
                  (attach-Inserted [] v (leaf_at (q ++ rest)) r loc inner
                    (subst (λ x. Free (rank x) (children n)) e free)
                    (leaf-NewChild q (length q) (q ++ rest) v refl
                      (ap (λ x. q ++ x) e ∙ append-nil q))))
          | inr some_left ↦
              rw (some_left, substr-rest q rest)
                (attach-Inserted rest v _ r loc inner free (
                  inner-NewChild q rest (length q) (length q + length rest) (q ++ rest) v _
                    (is_nil-ne rest some_left) refl refl refl))
        ])
    where
      leaf_at : Key → Node T
      leaf_at key = new_node nul (length q) true (some (key, v)) nil

  -- The pointer that `append` returns leads to the new entry.
  pub append-value : (l : Location T) (val : Key × T) → (fields (append l val).1.0).value ≡ some val
  unfolding append placed
  append-value (n, up) val =
      elim (Bool-cases (length val.0 - ((fields n).depth + length (fields n).key) == 0)) [
        | inl e ↦ rw e
        | inr e ↦ rw e
      ]
