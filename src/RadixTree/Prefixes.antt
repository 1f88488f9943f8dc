-- ===== src/RadixTree/Prefixes.antt =====
-- Prefixes of keys that are joined or cut.
use collection_of_mini_proje.Prelude.{
  ◌≤◌, ◌≡◌, ◌≢◌, ◌⊎◌, inl, inr, refl, true, false, [], ◌∷◌, ◌++◌, ◌==◌, length, take, arith,
}
use collection_of_mini_proje.RadixTree.Key.{Key, key_eq}
use collection_of_mini_proje.RadixTree.Order.{prefix}
use collection_of_mini_proje.RadixTree.Locate.{is_nil}

pub key_eq-take : (x k : Key) → key_eq x (take (length x) k) ≡ prefix x k
unfolding key_eq
key_eq-take [] k = refl
key_eq-take (c ∷ x) [] = refl
key_eq-take (c ∷ x) (d ∷ k) = ground (arith, key_eq-take x k)

pub prefix-longer : (k rest : Key) → prefix (k ++ rest) k ≡ is_nil rest
prefix-longer [] [] = refl
prefix-longer [] (c ∷ rest) = refl
prefix-longer (c ∷ k) rest = ground (arith, prefix-longer k rest)

pub prefix-extend : (s k j : Key) → prefix s k ≡ true → prefix s (k ++ j) ≡ true
prefix-extend [] k j h = refl
prefix-extend (c ∷ s) [] j h = cc
prefix-extend (c ∷ s) (d ∷ k) j h = ground (arith, prefix-extend s k j)

pub prefix-split_off :
    (s k j : Key) → prefix s k ≡ false → prefix k s ≡ false → prefix s (k ++ j) ≡ false
prefix-split_off [] k j h h' = cc
prefix-split_off (c ∷ s) [] j h h' = cc
prefix-split_off (c ∷ s) (d ∷ k) j h h' = ground (arith, prefix-split_off s k j)

-- A prefix of two keys joined is one of the first, or goes on behind it.
pub prefix-cases :
    (j q rest : Key)
    → prefix j (q ++ rest) ≡ true
    → (prefix j q ≡ true) ⊎ ((s : Key) × (j ≡ q ++ s) × (s ≢ []) × (prefix s rest ≡ true))
prefix-cases [] q rest h = inl refl
prefix-cases (c ∷ j) [] rest h = inr (c ∷ j, refl, λ e. cc, h)
prefix-cases (c ∷ j) (d ∷ q) rest h =
    let same : c ≡ d = ground arith in
    let one : (c == d) ≡ true = ground arith in
    elim (prefix-cases j q rest (ground arith)) [
      | inl short ↦ inl (rw (one, short))
      | inr (s, e, ne, h') ↦ inr (s, rw (same, e), ne, h')
    ]

pub prefix-length : (j q : Key) → prefix j q ≡ true → length j ≤ length q
prefix-length [] q h = omega arith
prefix-length (c ∷ j) [] h = cc
prefix-length (c ∷ j) (d ∷ q) h = let ih = prefix-length j q (ground arith) in omega (arith, ih)

pub prefix_trans : (a b c : Key) → prefix a b ≡ true → prefix b c ≡ true → prefix a c ≡ true
prefix_trans [] b c h h' = refl
prefix_trans (x ∷ a) [] c h h' = cc
prefix_trans (x ∷ a) (y ∷ b) [] h h' = cc
prefix_trans (x ∷ a) (y ∷ b) (z ∷ c) h h' = ground (arith, prefix_trans a b c)

pub prefix-both : (a b : Key) → prefix a b ≡ true → prefix b a ≡ true → a ≡ b
prefix-both [] [] h h' = refl
prefix-both [] (y ∷ b) h h' = cc
prefix-both (x ∷ a) [] h h' = cc
prefix-both (x ∷ a) (y ∷ b) h h' =
    let same : x ≡ y = ground arith in rw (same, prefix-both a b (ground arith) (ground arith))
