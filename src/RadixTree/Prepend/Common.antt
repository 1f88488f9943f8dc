-- ===== src/RadixTree/Prepend/Common.antt =====
-- The loop of `prepend` counts the bytes of the longest common prefix.
use collection_of_mini_proje.Prelude.{
  ℕ, suc, ◌+◌, ◌≡◌, ◌≢◌, inl, inr, refl, ap, ◌∙◌, true, false, [], ◌∷◌, ◌++◌, ◌==◌, ltb, length,
  arith, if◌then◌else◌, Bool-cases, append_assoc, length-append,
}
use native.Mathlib.Nat.{add_comm}
use collection_of_mini_proje.RadixTree.Key.{Key, char_at}
use collection_of_mini_proje.RadixTree.Order.{rank, prefix}
use collection_of_mini_proje.RadixTree.Insert.{count_loop}

abbrev pub common : Key → Key → Key
common [] r = []
common (c ∷ k) [] = []
common (c ∷ k) (d ∷ r) = if c == d then c ∷ common k r else []

-- Two keys that begin with the same byte, of which the first is no prefix of the second: the
-- common prefix, and two rests that begin with different bytes.
pub record Parts (k r : Key) : Type 0 where
  pub h : Key
  pub k2 : Key
  pub r2 : Key
  pub is_common : h ≡ common k r
  pub first : k ≡ h ++ k2
  pub second : r ≡ h ++ r2
  pub more : k2 ≢ []
  pub apart : rank k2 ≢ rank r2

pub parts : (k r : Key) → prefix k r ≡ false → Parts k r
parts [] r h = cc
parts (c ∷ k) [] h = record {
  h = [];
  k2 = c ∷ k;
  r2 = [];
  is_common = refl;
  first = refl;
  second = refl;
  more = λ e. cc;
  apart = omega arith;
}
parts (c ∷ k) (d ∷ r) h = elim (Bool-cases (c == d)) [
  | inl same ↦
      let p = parts k r (ground arith) in
      record {
        h = c ∷ p.h;
        k2 = p.k2;
        r2 = p.r2;
        is_common = rw (same, p.is_common);
        first = ap (λ x. c ∷ x) p.first;
        second = ground (arith, p.second);
        more = p.more;
        apart = p.apart;
      }
  | inr other ↦ record {
    h = [];
    k2 = c ∷ k;
    r2 = d ∷ r;
    is_common = rw other;
    first = refl;
    second = refl;
    more = λ e. cc;
    apart = ground arith;
  }
]

char_at-prefix : (a k : Key) (n : ℕ) → char_at (a ++ k) (length a + n) ≡ char_at k n
unfolding char_at
char_at-prefix [] k n = ap (char_at k) (omega arith)
char_at-prefix (c ∷ a) k n =
    let e : suc (length a) + n ≡ suc (length a + n) = omega arith in rw e (char_at-prefix a k n)

char_at-here : (a k : Key) (c : ℕ) → char_at (a ++ c ∷ k) (length a) ≡ c
unfolding char_at
char_at-here [] k c = refl
char_at-here (x ∷ a) k c = char_at-here a k c

char_at-there : (q a r : Key) (d : ℕ) → char_at (q ++ (a ++ d ∷ r)) (length a + length q) ≡ d
char_at-there q a r d = rw add_comm (char_at-prefix q (a ++ d ∷ r) (length a) ∙ char_at-here a r d)

-- The loop of `prepend`, after the rounds for the common bytes `a`, ends with the length of the
-- longest common prefix of the node's key and of the rest of the new key behind the path `q`.
pub count_loop-common :
    (k a r q : Key)
    → count_loop (length k) (length a) (length (a ++ r)) (a ++ k) (q ++ (a ++ r)) (length q)
      ≡ length a + length (common k r)
unfolding count_loop
count_loop-common [] a r q = omega arith
count_loop-common (c ∷ k) a [] q = ground (arith, length-append a [])
count_loop-common (c ∷ k) a (d ∷ r) q =
    let more : ltb (length a) (length (a ++ d ∷ r)) ≡ true =
      ground (arith, length-append a (d ∷ r)) in
    rw (more, char_at-here, char_at-there)
      (elim (Bool-cases (c == d)) [
        | inl same ↦
            let e : d ≡ c = ground arith in
            rw (same, e) (next (count_loop-common k (a ++ c ∷ []) r q))
        | inr other ↦ rw other (omega arith)
      ])
  where
    next :
        count_loop
            (length k)
            (length (a ++ c ∷ []))
            (length ((a ++ c ∷ []) ++ r))
            ((a ++ c ∷ []) ++ k)
            (q ++ ((a ++ c ∷ []) ++ r))
            (length q)
          ≡ length (a ++ c ∷ []) + length (common k r)
        → count_loop
            (length k)
            (length a + 1)
            (length (a ++ c ∷ r))
            (a ++ c ∷ k)
            (q ++ (a ++ c ∷ r))
            (length q)
          ≡ length a + suc (length (common k r))
    next ih =
        let one : length (a ++ c ∷ []) ≡ length a + 1 = omega (arith, length-append a (c ∷ [])) in
        (rw (one, append_assoc, append_assoc) at ih) ∙ omega arith
