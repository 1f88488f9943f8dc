-- ===== src/RadixTree/Order.antt =====
-- Keys: prefixes, first bytes, and what the order of `std::string` says of first bytes.
use Prim.Native.Nat.{Ordering}
use collection_of_mini_proje.Prelude.{
  ℕ, zero, suc, ◌≤◌, ◌<◌, ◌≡◌, ◌≢◌, refl, Bool, true, false, ◌&&◌, [], ◌∷◌, ◌++◌, ◌==◌, length,
  take, drop, arith,
}
use collection_of_mini_proje.RadixTree.Key.{Key, key_eq, key_cmp}

-- The first byte, with 0 for the empty key: children of one node have different ranks.
abbrev pub rank : Key → ℕ
rank [] = 0
rank (c ∷ k) = suc c

abbrev pub prefix : Key → Key → Bool
prefix [] j = true
prefix (c ∷ k) [] = false
prefix (c ∷ k) (d ∷ j) = (c == d) && prefix k j

-- The child under `k` is the one to look into for `r`.
abbrev pub hits : Key → Key → Bool
hits k r = (rank k == rank r) && prefix k r

pub key_eq_sound : (a b : Key) → key_eq a b ≡ true → a ≡ b
unfolding key_eq
key_eq_sound [] [] h = refl
key_eq_sound [] (d ∷ b) h = cc
key_eq_sound (c ∷ a) [] h = cc
key_eq_sound (c ∷ a) (d ∷ b) h = ground (arith, key_eq_sound a b)

pub key_eq_refl : (a : Key) → key_eq a a ≡ true
unfolding key_eq
key_eq_refl [] = refl
key_eq_refl (c ∷ a) = ground (arith, key_eq_refl a)

pub key_cmp_refl : (a : Key) → key_cmp a a ≡ Ordering.eq
unfolding key_cmp
key_cmp_refl [] = refl
key_cmp_refl (c ∷ a) = ground (arith, key_cmp_refl a)

pub key_cmp_sound : (a b : Key) → key_cmp a b ≡ Ordering.eq → a ≡ b
unfolding key_cmp
key_cmp_sound [] [] h = refl
key_cmp_sound [] (d ∷ b) h = cc
key_cmp_sound (c ∷ a) [] h = cc
key_cmp_sound (c ∷ a) (d ∷ b) h = ground (arith, key_cmp_sound a b)

pub rank_le_of_lt : (a b : Key) → key_cmp a b ≡ Ordering.lt → rank a ≤ rank b
unfolding key_cmp
rank_le_of_lt [] b h = omega arith
rank_le_of_lt (c ∷ a) [] h = cc
rank_le_of_lt (c ∷ a) (d ∷ b) h = ground arith

pub rank_le_of_gt : (a b : Key) → key_cmp a b ≡ Ordering.gt → rank b ≤ rank a
unfolding key_cmp
rank_le_of_gt a [] h = omega arith
rank_le_of_gt [] (d ∷ b) h = cc
rank_le_of_gt (c ∷ a) (d ∷ b) h = ground arith

-- The empty key comes first, and is alone in its rank.
pub rank_zero : (k : Key) → rank k ≡ 0 → k ≡ []
rank_zero [] h = refl
rank_zero (c ∷ k) h = absurd (omega arith)

pub prefix-append : (k r : Key) → prefix k (k ++ r) ≡ true
prefix-append [] r = refl
prefix-append (c ∷ k) r = ground (arith, prefix-append k r)

pub drop-append : (k r : Key) → drop (length k) (k ++ r) ≡ r
drop-append [] r = refl
drop-append (c ∷ k) r = drop-append k r

pub prefix-split : (k r : Key) → prefix k r ≡ true → k ++ drop (length k) r ≡ r
prefix-split [] r h = refl
prefix-split (c ∷ k) [] h = cc
prefix-split (c ∷ k) (d ∷ r) h = ground (arith, prefix-split k r)

-- `key_sub == it->first` is a test for a prefix.
pub prefix-take : (k r : Key) → key_eq (take (length k) r) k ≡ prefix k r
unfolding key_eq
prefix-take [] r = refl
prefix-take (c ∷ k) [] = refl
prefix-take (c ∷ k) (d ∷ r) = ground (arith, prefix-take k r)

pub key_cmp-gt : (a b : Key) → rank b < rank a → key_cmp a b ≡ Ordering.gt
unfolding key_cmp
key_cmp-gt [] b h = absurd (omega arith)
key_cmp-gt (c ∷ a) [] h = refl
key_cmp-gt (c ∷ a) (d ∷ b) h = ground arith

pub prefix-++ : (q k j : Key) → prefix (q ++ k) j ≡ (prefix q j && prefix k (drop (length q) j))
prefix-++ [] k j = refl
prefix-++ (c ∷ q) k [] = refl
prefix-++ (c ∷ q) k (d ∷ j) = ground (arith, prefix-++ q k j)

drop-nil : (n : ℕ) → ◌≡◌ {A = Key} [] (drop n [])
drop-nil zero = refl
drop-nil (suc n) = refl

pub drop-++ : (q k j : Key) → drop (length (q ++ k)) j ≡ drop (length k) (drop (length q) j)
drop-++ [] k j = refl
drop-++ (c ∷ q) k [] = drop-nil (length k)
drop-++ (c ∷ q) k (d ∷ j) = drop-++ q k j

pub prefix-rank : (k r : Key) → k ≢ [] → prefix k r ≡ true → rank r ≡ rank k
prefix-rank [] r ne h = absurd (ne refl)
prefix-rank (c ∷ k) [] ne h = cc
prefix-rank (c ∷ k) (d ∷ r) ne h = ground arith
