-- ===== src/RadixTree/Ascending.antt =====
-- The order of `std::string` on the keys of a list: keys that strictly increase. Two such lists in
-- which every look-up gives the same are equal.
use Prim.Native.Nat.{Ordering}
use collection_of_mini_proje.Prelude.{
  ◌<◌, ◌≡◌, inl, inr, refl, ap, sym, subst, ◌∙◌, false, none, some, List, [], ◌∷◌, ◌++◌, arith,
  Bool-cases,
}
use collection_of_mini_proje.RadixTree.Key.{Key, key_eq, key_cmp}
use collection_of_mini_proje.RadixTree.Order.{
  rank, key_eq_refl, key_eq_sound, key_cmp_refl, key_cmp_sound,
}
use collection_of_mini_proje.RadixTree.Spec.{lookup, under}

pub key_cmp-lt : (a b : Key) → rank a < rank b → key_cmp a b ≡ Ordering.lt
unfolding key_cmp
key_cmp-lt a [] h = absurd (omega arith)
key_cmp-lt [] (d ∷ b) h = refl
key_cmp-lt (c ∷ a) (d ∷ b) h = ground arith

pub key_cmp-append : (k a b : Key) → key_cmp (k ++ a) (k ++ b) ≡ key_cmp a b
unfolding key_cmp
key_cmp-append [] a b = refl
key_cmp-append (c ∷ k) a b = ground (arith, key_cmp-append k a b)

pub key_cmp_flip : (a b : Key) → key_cmp a b ≡ Ordering.gt → key_cmp b a ≡ Ordering.lt
unfolding key_cmp
key_cmp_flip [] [] h = cc
key_cmp_flip [] (d ∷ b) h = cc
key_cmp_flip (c ∷ a) [] h = refl
key_cmp_flip (c ∷ a) (d ∷ b) h = ground (arith, key_cmp_flip a b)

pub key_cmp_trans :
    (a b c : Key)
    → key_cmp a b ≡ Ordering.lt
    → key_cmp b c ≡ Ordering.lt
    → key_cmp a c ≡ Ordering.lt
unfolding key_cmp
key_cmp_trans [] [] c h h' = cc
key_cmp_trans [] (y ∷ b) [] h h' = cc
key_cmp_trans [] (y ∷ b) (z ∷ c) h h' = refl
key_cmp_trans (x ∷ a) [] c h h' = cc
key_cmp_trans (x ∷ a) (y ∷ b) [] h h' = cc
key_cmp_trans (x ∷ a) (y ∷ b) (z ∷ c) h h' = ground (arith, key_cmp_trans a b c)

pub key_eq-lt : (a b : Key) → key_cmp a b ≡ Ordering.lt → key_eq b a ≡ false
key_eq-lt a b h = elim (Bool-cases (key_eq b a)) [
  | inl same ↦ cc (h, ap (key_cmp a) (key_eq_sound b a same), key_cmp_refl a)
  | inr other ↦ other
]

module _ {T : Type 0} where
  -- Every key of the list comes behind `k`.
  abbrev pub Above : Key → List (Key × T) → Type 0
  Above k [] = Unit
  Above k ((j, v) ∷ es) = (key_cmp k j ≡ Ordering.lt) × Above k es

  abbrev pub Ascending : List (Key × T) → Type 0
  Ascending [] = Unit
  Ascending ((j, v) ∷ es) = Above j es × Ascending es

  pub Above-trans :
      (i j : Key) (es : List (Key × T)) → key_cmp i j ≡ Ordering.lt → Above j es → Above i es
  Above-trans i j [] h a = tt
  Above-trans i j ((k, v) ∷ es) h a = (key_cmp_trans i j k h a.0, Above-trans i j es h a.1)

  pub lookup-Above : (k : Key) (es : List (Key × T)) → Above k es → lookup k es ≡ none
  unfolding lookup
  lookup-Above k [] a = refl
  lookup-Above k ((j, v) ∷ es) a = rw (key_eq-lt k j a.0) (lookup-Above k es a.1)

  pub Above-append :
      (k : Key) (es fs : List (Key × T)) → Above k es → Above k fs → Above k (es ++ fs)
  Above-append k [] fs a b = b
  Above-append k ((j, v) ∷ es) fs a b = (a.0, Above-append k es fs a.1 b)

  pub Above-under : (k j : Key) (es : List (Key × T)) → Above j es → Above (k ++ j) (under k es)
  Above-under k j [] a = tt
  Above-under k j ((i, v) ∷ es) a = (key_cmp-append k j i ∙ a.0, Above-under k j es a.1)

  pub Ascending-under : (k : Key) (es : List (Key × T)) → Ascending es → Ascending (under k es)
  Ascending-under k [] a = tt
  Ascending-under k ((j, v) ∷ es) a = (Above-under k j es a.0, Ascending-under k es a.1)

  head_value : (j : Key) (v : T) (es : List (Key × T)) → lookup j ((j, v) ∷ es) ≡ some v
  unfolding lookup
  head_value j v es = rw (key_eq_refl j)

  head_other :
      (i j : Key) (v : T) (es : List (Key × T))
      → key_eq j i ≡ false
      → lookup i ((j, v) ∷ es) ≡ lookup i es
  unfolding lookup
  head_other i j v es h = rw h

  -- A key that comes before the first of a list has no entry in it.
  before_head :
      (k j : Key) (v : T) (es : List (Key × T))
      → Above j es
      → key_cmp k j ≡ Ordering.lt
      → lookup k ((j, v) ∷ es) ≡ none
  before_head k j v es a h = lookup-Above k ((j, v) ∷ es) (h, Above-trans k j es h a)

  tails :
      (j : Key) (v w : T) (es fs : List (Key × T))
      → Above j es
      → Above j fs
      → ((k : Key) → lookup k ((j, v) ∷ es) ≡ lookup k ((j, w) ∷ fs))
      → (k : Key) → lookup k es ≡ lookup k fs
  tails j v w es fs a b h k = elim (Bool-cases (key_eq j k)) [
    | inl same ↦
        let e = key_eq_sound j k same in
        ap (λ x. lookup x es) (sym e)
        ∙ lookup-Above j es a
        ∙ sym (lookup-Above j fs b)
        ∙ ap (λ x. lookup x fs) e
    | inr other ↦ sym (head_other k j v es other) ∙ h k ∙ head_other k j w fs other
  ]

  -- Lists with the same first key.
  heads :
      (j : Key) (v w : T) (es fs : List (Key × T))
      → Above j es
      → Above j fs
      → (((k : Key) → lookup k es ≡ lookup k fs) → es ≡ fs)
      → ((k : Key) → lookup k ((j, v) ∷ es) ≡ lookup k ((j, w) ∷ fs))
      → (j, v) ∷ es ≡ (j, w) ∷ fs
  heads j v w es fs a b rest h =
      let same : some v ≡ some w = sym (head_value j v es) ∙ h j ∙ head_value j w fs in
      let rests : es ≡ fs = rest (tails j v w es fs a b h) in cc

  pub Ascending-ext :
      (es fs : List (Key × T))
      → Ascending es
      → Ascending fs
      → ((k : Key) → lookup k es ≡ lookup k fs)
      → es ≡ fs
  Ascending-ext [] [] a b h = refl
  Ascending-ext [] ((i, w) ∷ fs) a b h = cc (h i, head_value i w fs, lookup-Above i [] tt)
  Ascending-ext ((j, v) ∷ es) [] a b h = cc (h j, head_value j v es, lookup-Above j [] tt)
  Ascending-ext ((j, v) ∷ es) ((i, w) ∷ fs) a b h =
      ordered (key_cmp j i) refl (Ascending-ext es fs a.1 b.1)
    where
      ordered :
          (o : Ordering)
          → key_cmp j i ≡ o
          → (((k : Key) → lookup k es ≡ lookup k fs) → es ≡ fs)
          → (j, v) ∷ es ≡ (i, w) ∷ fs
      ordered Ordering.lt e rest = cc (h j, head_value j v es, before_head j i w fs b.0 e)
      ordered Ordering.gt e rest =
          cc (h i, head_value i w fs, before_head i j v es a.0 (key_cmp_flip j i e))
      ordered Ordering.eq e rest =
          let same = key_cmp_sound j i e in
          subst
            (λ x.
              Above x fs
              → ((k : Key) → lookup k ((j, v) ∷ es) ≡ lookup k ((x, w) ∷ fs))
              → (j, v) ∷ es ≡ (x, w) ∷ fs)
            same (λ b' h'. heads j v w es fs a.0 b' rest h') b.0 h
