-- ===== src/RadixTree/Merge.antt =====
-- `erase`: a node with one child that is no leaf gives way to that child.
use collection_of_mini_proje.Prelude.{
  ℕ, ◌+◌, ◌<◌, ◌≡◌, ◌≢◌, inl, inr, refl, ap, sym, subst, ◌∙◌, true, false, none, some, List, [],
  ◌∷◌, ◌++◌, ◌==◌, if◌then◌else◌, arith, length, drop, append_assoc, Bool-cases,
}
use collection_of_mini_proje.RadixTree.Key.{Key}
use collection_of_mini_proje.RadixTree.Order.{rank, prefix, prefix-rank, prefix-++, drop-++}
use collection_of_mini_proje.RadixTree.Node.{
  Node, node, nil, cons, fields, children, is_leaf, find_child, write_back,
}
use collection_of_mini_proje.RadixTree.Spec.{get, get_in, contents, IsNode, AreNodes, IsRoot}
use collection_of_mini_proje.RadixTree.Child.{get_in_miss}
use collection_of_mini_proje.RadixTree.Locations.{IsInner, IsLoc, internal-key}
use collection_of_mini_proje.RadixTree.Rebuild.{Child-of, IsNode-key, get-inner}
use collection_of_mini_proje.RadixTree.Roots.{Rebuilt, Rebuilt-below}
use collection_of_mini_proje.RadixTree.Count.{total, total_of, total-cons, total-inner}
use collection_of_mini_proje.RadixTree.Prepend.Upper.{lower}
use collection_of_mini_proje.RadixTree.Prepend.Place.{
  replaced, replace-Rebuilt, replaced-search, replaced-total,
}
use collection_of_mini_proje.RadixTree.Starting.{rank-append}
use collection_of_mini_proje.RadixTree.Erase.{merge}

pub rank-positive : (k : Key) → k ≢ [] → 0 < rank k
rank-positive [] h = absurd (h refl)
rank-positive (c ∷ k) h = omega arith

module _ {T : Type 0} where
  -- The child `u` under the keys of both nodes.
  IsNode-joined :
      (q k ku : Key) (d : ℕ) (u : Node T)
      → IsNode (q ++ k) ku u
      → is_leaf u ≡ false
      → k ≢ []
      → d ≡ length q
      → IsNode q (k ++ ku) (lower d (k ++ ku) u)
  IsNode-joined q k ku d (node f cs) (key, depth, kind, s, a) inner ne e = (
    refl,
    e,
    elim kind [
      | inl l ↦ cc (l.leaf)
      | inr i ↦
          inr (record { internal = inner; has_key = λ h. not_nil k ku ne h; compact = i.compact })
    ],
    s,
    subst (λ x. AreNodes x cs) (append_assoc q k ku) a,
  )
    where
      not_nil : (k ku : Key) → k ≢ [] → (k ++ ku) ≢ []
      not_nil [] ku h e = h refl
      not_nil (c ∷ k) ku h e = cc

  get-lower : (r : Key) (d : ℕ) (k : Key) (u : Node T) → get r (lower d k u) ≡ get r u
  unfolding get
  get-lower r d k (node f cs) = refl

  total-lower : (d : ℕ) (k : Key) (u : Node T) → total (lower d k u) ≡ total u
  unfolding contents
  total-lower d k (node f cs) = refl

  -- The search in a node with one child.
  get_in-single :
      (ku r : Key) (u : Node T)
      → ku ≢ []
      → get_in r (cons ku u nil) ≡ (if prefix ku r then get (drop (length ku) r) u else none)
  unfolding get
  get_in-single ku r u ne = ground (arith, prefix-rank ku r ne)

  get-single :
      (ku r : Key) (u n : Node T)
      → children n ≡ cons ku u nil
      → is_leaf n ≡ false
      → ku ≢ []
      → get r n ≡ (if prefix ku r then get (drop (length ku) r) u else none)
  get-single ku r u n e h ne = get-inner r n h ∙ ap (get_in r) e ∙ get_in-single ku r u ne

  total_one :
      (ku : Key) (u n : Node T) → children n ≡ cons ku u nil → is_leaf n ≡ false → total n ≡ total u
  total_one ku u n e h =
      total-inner n h ∙ ap total_of e ∙ total-cons ku u nil ∙ unfold contents in omega arith

  module _ {root parent n u : Node T} {q : Key} {up : List (Node T)} (k ku : Key) (n' : Node T)
      (r : IsRoot root) (loc : IsLoc root q parent up) (inner : IsInner q parent)
      (found : find_child k (children parent) ≡ some n) (deep : is_leaf n ≡ false)
      (is : IsNode (q ++ k) ku u) (inside : is_leaf u ≡ false) (one : children n' ≡ cons ku u nil)
      (internal : is_leaf n' ≡ false) where
    abbrev joined : Node T
    joined = lower (length q) (k ++ ku) u

    key_n : k ≢ []
    key_n = internal-key q k n (Child-of inner found).is deep

    positive : 0 < rank k
    positive = rank-positive k key_n

    joined-is : IsNode q (k ++ ku) joined
    joined-is = IsNode-joined q k ku (length q) u is inside key_n refl

    same : rank (k ++ ku) ≡ rank k
    same = sym (rank-append k ku key_n)

    -- The parent afterwards finds what it would find with `n'` in the place of `n`.
    merged-search :
        (s : Key)
        → get s (replaced k joined parent)
          ≡ (if prefix k s then get (drop (length k) s) n' else get s parent)
    merged-search s =
        rw
          (
            replaced-search k (k ++ ku) joined s inner found same joined-is,
            prefix-++ k ku s,
            drop-++ k ku s,
          )
          (elim (Bool-cases (prefix k s)) [
            | inl through ↦
                let here : (rank s == rank k) ≡ true =
                  ground (arith, prefix-rank k s key_n through) in
                rw (here, through, get-lower)
                  (sym (
                    get-single ku (drop (length k) s) u n' one internal
                      (internal-key (q ++ k) ku u is inside)))
            | inr miss ↦ elim (Bool-cases (rank s == rank k)) [
              | inl here ↦
                  rw (here, miss)
                    (sym (
                      get-inner s parent inner.internal
                      ∙ get_in_miss k s (children parent) (Child-of inner found).only (ground arith)
                          miss))
              | inr apart ↦ rw (apart, miss)
            ]
          ])

    abbrev merged_root : Node T
    merged_root = write_back (replaced k joined parent) up

    merged-Rebuilt : Rebuilt root (q ++ k) n' merged_root
    merged-Rebuilt =
        Rebuilt-below k n' (replaced k joined parent) merged_root loc inner merged-search
          (replace-Rebuilt k (k ++ ku) joined r loc inner found positive same joined-is).0

    merged-total : total merged_root + total n ≡ total root + total n'
    merged-total =
        let whole =
          (replace-Rebuilt k (k ++ ku) joined r loc inner found positive same joined-is).1 in
        let part = replaced-total k (k ++ ku) joined inner found same joined-is in
        let moved : total joined ≡ total u = total-lower (length q) (k ++ ku) u in
        let only : total n' ≡ total u = total_one ku u n' one internal in
        omega (arith, whole, part, moved, only)

    -- `merge` at `n'`, which has the key and the depth of `n`.
    pub merge-Rebuilt :
        (fields n').key ≡ k
        → (fields n').depth ≡ length q
        → Rebuilt root (q ++ k) n' (merge n' ku u parent up)
          × (total (merge n' ku u parent up) + total n ≡ total root + total n')
    unfolding merge
    merge-Rebuilt e d = rw (e, d, IsNode-key (q ++ k) ku u is) (merged-Rebuilt, merged-total)
