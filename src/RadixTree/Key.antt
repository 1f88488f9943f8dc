-- ===== src/RadixTree/Key.antt =====
-- Keys: `std::string` as its bytes, and `radix_substr`, `radix_join`, `radix_length`.
use Prim.Native.Nat.{compare, Ordering}
use collection_of_mini_proje.Prelude.{
  ℕ, zero, suc, Bool, true, false, ◌&&◌, List, [], ◌∷◌, ◌++◌, ◌==◌, length, take, drop,
}

abbrev pub Key : Type 0
Key = List ℕ

-- `K nul = radix_substr(key, 0, 0)`
abbrev pub nul : Key
nul = []

abbrev pub radix_substr : Key → ℕ → ℕ → Key
radix_substr key begin num = take num (drop begin key)

abbrev pub radix_join : Key → Key → Key
radix_join key1 key2 = key1 ++ key2

abbrev pub radix_length : Key → ℕ
radix_length key = length key

-- `key[i]`, which is the terminating zero at the end of the string.
unfoldable pub char_at : Key → ℕ → ℕ
char_at [] i = 0
char_at (c ∷ key) zero = c
char_at (c ∷ key) (suc i) = char_at key i

-- `==` and the order of `std::string`, which compares bytes as unsigned numbers.
unfoldable pub key_eq : Key → Key → Bool
key_eq [] [] = true
key_eq [] (d ∷ ds) = false
key_eq (c ∷ cs) [] = false
key_eq (c ∷ cs) (d ∷ ds) = (c == d) && key_eq cs ds

unfoldable pub key_cmp : Key → Key → Ordering
key_cmp [] [] = Ordering.eq
key_cmp [] (d ∷ ds) = Ordering.lt
key_cmp (c ∷ cs) [] = Ordering.gt
key_cmp (c ∷ cs) (d ∷ ds) = elim (compare c d) [
  | Ordering.lt ↦ Ordering.lt
  | Ordering.gt ↦ Ordering.gt
  | Ordering.eq ↦ key_cmp cs ds
]
