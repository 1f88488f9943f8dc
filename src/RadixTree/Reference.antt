-- ===== src/RadixTree/Reference.antt =====
-- The map that a radix tree stands for: a list of keys and values in the order of the keys.
use Prim.Native.Nat.{Ordering}
use collection_of_mini_proje.Prelude.{
  ◌≡◌, Bool, inl, inr, refl, ap, sym, ◌∙◌, true, false, Option, none, some, List, [], ◌∷◌,
  if◌then◌else◌, arith, Bool-cases,
}
use collection_of_mini_proje.RadixTree.Key.{Key, key_eq, key_cmp}
use collection_of_mini_proje.RadixTree.Order.{key_eq_sound, key_cmp_sound}
use collection_of_mini_proje.RadixTree.Spec.{lookup}
use collection_of_mini_proje.RadixTree.Insertion.{is_none}
use collection_of_mini_proje.RadixTree.Ascending.{
  Above, Ascending, Above-trans, key_cmp_flip, key_eq-lt,
}

differs : (k i j : Key) → key_cmp k i ≡ Ordering.gt → key_eq i j ≡ true → key_eq k j ≡ false
differs k i j e h = ap (key_eq k) (sym (key_eq_sound i j h)) ∙ key_eq-lt i k (key_cmp_flip k i e)

module _ {T : Type 0} where
  -- `put` replaces the value of a key, or adds the key at its place.
  unfoldable pub put : Key → T → List (Key × T) → List (Key × T)
  put k v [] = (k, v) ∷ []
  put k v ((j, w) ∷ es) = elim (key_cmp k j) [
    | Ordering.lt ↦ (k, v) ∷ (j, w) ∷ es
    | Ordering.eq ↦ (j, v) ∷ es
    | Ordering.gt ↦ (j, w) ∷ put k v es
  ]

  unfoldable pub without : Key → List (Key × T) → List (Key × T)
  without k [] = []
  without k ((j, w) ∷ es) = let rest = without k es in if key_eq k j then rest else (j, w) ∷ rest

  -- `put` for a key that is new.
  unfoldable pub add : Key → T → List (Key × T) → List (Key × T)
  add k v es = if is_none (lookup k es) then put k v es else es

  if_twice :
      (x y z : Option T) (b : Bool) → (if b then x else y) ≡ (if b then x else (if b then z else y))
  if_twice x y z true = refl
  if_twice x y z false = refl

  pub lookup-put :
      (k : Key) (v : T) (es : List (Key × T)) (j : Key)
      → lookup j (put k v es) ≡ (if key_eq k j then some v else lookup j es)
  unfolding lookup put
  lookup-put k v [] j = refl
  lookup-put k v ((i, w) ∷ es) j = at_order (key_cmp k i) refl (lookup-put k v es j)
    where
      at_order :
          (o : Ordering)
          → key_cmp k i ≡ o
          → lookup j (put k v es) ≡ (if key_eq k j then some v else lookup j es)
          → lookup j (put k v ((i, w) ∷ es))
            ≡ (if key_eq k j then some v else lookup j ((i, w) ∷ es))
      at_order Ordering.lt e ih = rw (e, put)
      at_order Ordering.eq e ih =
          let same = key_cmp_sound k i e in rw (e, put, same) (if_twice _ _ _ (key_eq i j))
      at_order Ordering.gt e ih =
          rw (e, put)
            (elim (Bool-cases (key_eq i j)) [
              | inl here ↦ rw (here, differs k i j e here)
              | inr there ↦ rw there ih
            ])

  pub lookup-without :
      (k : Key) (es : List (Key × T)) (j : Key)
      → lookup j (without k es) ≡ (if key_eq k j then none else lookup j es)
  unfolding lookup without
  lookup-without k [] j = ground arith
  lookup-without k ((i, w) ∷ es) j =
      let ih = lookup-without k es j in
      elim (Bool-cases (key_eq k i)) [
        | inl same ↦ rw same (ground (arith, key_eq_sound k i same))
        | inr other ↦ elim (Bool-cases (key_eq i j)) [
          | inl here ↦
              let not_k : key_eq k j ≡ false =
                ap (key_eq k) (sym (key_eq_sound i j here)) ∙ other in
              rw (other, here, not_k)
          | inr there ↦ rw (other, there) ih
        ]
      ]

  Above-put :
      (i k : Key) (v : T) (es : List (Key × T))
      → key_cmp i k ≡ Ordering.lt
      → Above i es
      → Above i (put k v es)
  unfolding put
  Above-put i k v [] h a = (h, tt)
  Above-put i k v ((j, w) ∷ es) h a = at_order (key_cmp k j) refl (Above-put i k v es h a.1)
    where
      at_order :
          (o : Ordering) → key_cmp k j ≡ o → Above i (put k v es) → Above i (put k v ((j, w) ∷ es))
      at_order Ordering.lt e ih = rw (e, put) (h, a)
      at_order Ordering.eq e ih = rw (e, put) a
      at_order Ordering.gt e ih = rw (e, put) (a.0, ih)

  Above-without : (i k : Key) (es : List (Key × T)) → Above i es → Above i (without k es)
  unfolding without
  Above-without i k [] a = tt
  Above-without i k ((j, w) ∷ es) a =
      let ih = Above-without i k es a.1 in
      elim (Bool-cases (key_eq k j)) [ inl same ↦ rw same ih | inr other ↦ rw other (a.0, ih) ]

  pub Ascending-put :
      (k : Key) (v : T) (es : List (Key × T)) → Ascending es → Ascending (put k v es)
  unfolding put
  Ascending-put k v [] a = (tt, tt)
  Ascending-put k v ((i, w) ∷ es) a = at_order (key_cmp k i) refl (Ascending-put k v es a.1)
    where
      at_order :
          (o : Ordering)
          → key_cmp k i ≡ o
          → Ascending (put k v es)
          → Ascending (put k v ((i, w) ∷ es))
      at_order Ordering.lt e ih = rw (e, put) ((e, Above-trans k i es e a.0), a)
      at_order Ordering.eq e ih = rw (e, put) a
      at_order Ordering.gt e ih = rw (e, put) (Above-put i k v es (key_cmp_flip k i e) a.0, ih)

  pub Ascending-without : (k : Key) (es : List (Key × T)) → Ascending es → Ascending (without k es)
  unfolding without
  Ascending-without k [] a = tt
  Ascending-without k ((i, w) ∷ es) a =
      let ih = Ascending-without k es a.1 in
      elim (Bool-cases (key_eq k i)) [
        | inl same ↦ rw same ih
        | inr other ↦ rw other (Above-without i k es a.0, ih)
      ]
