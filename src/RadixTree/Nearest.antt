-- ===== src/RadixTree/Nearest.antt =====
-- The searches by prefixes of a key, on the list of entries: the longest prefix that has an entry,
-- and the longest with which an entry begins.
use collection_of_mini_proje.Prelude.{
  ℕ, zero, suc, ◌≤◌, ◌<◌, ◌≡◌, ◌≢◌, ◌⊎◌, inl, inr, refl, ap, sym, subst, ◌∙◌, true, Option, none,
  some, List, [], ◌∷◌, ◌++◌, arith, length, take,
}
use collection_of_mini_proje.RadixTree.Key.{Key}
use collection_of_mini_proje.RadixTree.Order.{prefix, prefix-append}
use collection_of_mini_proje.RadixTree.Node.{Node, Location, fields}
use collection_of_mini_proje.RadixTree.Spec.{lookup}
use collection_of_mini_proje.RadixTree.Starting.{starting, starting-nil}
use collection_of_mini_proje.RadixTree.Prefixes.{prefix-cases, prefix-length}
use collection_of_mini_proje.RadixTree.Leaves.{held, present}
use collection_of_mini_proje.RadixTree.Climb.{Longest}
use collection_of_mini_proje.RadixTree.Greedy.{Nearest}

prefix-taken : (n : ℕ) (key : Key) → prefix (take n key) key ≡ true
prefix-taken zero key = refl
prefix-taken (suc n) [] = refl
prefix-taken (suc n) (c ∷ key) = ground (arith, prefix-taken n key)

take-prefix : (j key : Key) → prefix j key ≡ true → take (length j) key ≡ j
take-prefix [] key h = refl
take-prefix (c ∷ j) [] h = cc
take-prefix (c ∷ j) (d ∷ key) h =
    let same : c ≡ d = ground arith in
    let rest : prefix j key ≡ true = ground arith in cc (same, take-prefix j key rest)

length-take : (n : ℕ) (key : Key) → n ≤ length key → length (take n key) ≡ n
length-take zero key h = refl
length-take (suc n) [] h = absurd (omega arith)
length-take (suc n) (c ∷ key) h = omega (arith, length-take n key (omega arith))

last_or_less : (m n : ℕ) → m ≤ suc n → (m ≡ suc n) ⊎ (m ≤ n)
last_or_less m n h = ground arith

module _ {T : Type 0} where
  -- What an iterator shows.
  abbrev pub shown : Option (Location T) → Option (Key × T)
  shown none = none
  shown (some l) = (fields l.0).value

  -- The longest of the first `n` prefixes of a key that has an entry, with its value.
  unfoldable pub longest_of : Key → ℕ → List (Key × T) → Option (Key × T)
  longest_of key zero es = elim (lookup [] es) [ none ↦ none | some v ↦ some ([], v) ]
  longest_of key (suc n) es =
      let shorter = longest_of key n es in
      elim (lookup (take (suc n) key) es) [ none ↦ shorter | some v ↦ some (take (suc n) key, v) ]

  -- The entries that begin with the longest of the first `n` prefixes with which some entry begins.
  unfoldable pub nearest_of : Key → ℕ → List (Key × T) → List (Key × T)
  nearest_of key zero es = es
  nearest_of key (suc n) es =
      let shorter = nearest_of key n es in
      elim (starting (take (suc n) key) es) [ [] ↦ shorter | e ∷ fs ↦ e ∷ fs ]

  longest_of-none :
      (key : Key) (es : List (Key × T)) (n : ℕ)
      → ((j : Key) → prefix j key ≡ true → lookup j es ≡ none)
      → longest_of key n es ≡ none
  unfolding longest_of
  longest_of-none key es zero h = rw (h [] refl, longest_of)
  longest_of-none key es (suc n) h =
      rw (h (take (suc n) key) (prefix-taken (suc n) key), longest_of) (longest_of-none key es n h)

  longest_of-some :
      (key j : Key) (v : T) (es : List (Key × T)) (n : ℕ)
      → lookup j es ≡ some v
      → prefix j key ≡ true
      → ((i : Key) → prefix i key ≡ true → length j < length i → lookup i es ≡ none)
      → length j ≤ n
      → n ≤ length key
      → longest_of key n es ≡ some (j, v)
  unfolding longest_of
  longest_of-some key [] v es zero e p h le le' = rw (e, longest_of)
  longest_of-some key (c ∷ j) v es zero e p h le le' = absurd (omega arith)
  longest_of-some key j v es (suc n) e p h le le' = elim (last_or_less (length j) n le) [
    | inl here ↦
        let taken : take (suc n) key ≡ j = ap (λ x. take x key) (sym here) ∙ take-prefix j key p in
        rw (ap (λ x. lookup x es) taken ∙ e, longest_of) (ap (λ x. some (x, v)) taken)
    | inr less ↦
        let longer = length-take (suc n) key le' in
        let gone = h (take (suc n) key) (prefix-taken (suc n) key) (omega (arith, longer)) in
        rw (gone, longest_of) (longest_of-some key j v es n e p h less (omega arith))
  ]

  pub Longest-of :
      (key : Key) (es : List (Key × T)) (o : Option (Location T))
      → Longest key (λ j. lookup j es) o
      → shown o ≡ longest_of key (length key) es
  Longest-of key es none h = sym (longest_of-none key es (length key) h)
  Longest-of key es (some l) (j, v, holds, found, p, longest) =
      holds
      ∙ sym (
          longest_of-some key j v es (length key) found p longest (prefix-length j key p)
            (omega arith))

  -- A non-empty list of entries that begin with a prefix is the answer.
  nearest_here :
      (key : Key) (es : List (Key × T)) (n : ℕ)
      → starting (take (suc n) key) es ≢ []
      → nearest_of key (suc n) es ≡ starting (take (suc n) key) es
  unfolding nearest_of
  nearest_here key es n ne = pick (starting (take (suc n) key) es) (nearest_of key n es) ne
    where
      pick :
          (fs shorter : List (Key × T)) → fs ≢ [] → elim fs [ [] ↦ shorter | e ∷ gs ↦ e ∷ gs ] ≡ fs
      pick [] shorter ne = absurd (ne refl)
      pick (e ∷ fs) shorter ne = refl

  nearest_shorter :
      (key : Key) (es : List (Key × T)) (n : ℕ)
      → starting (take (suc n) key) es ≡ []
      → nearest_of key (suc n) es ≡ nearest_of key n es
  unfolding nearest_of
  nearest_shorter key es n e = rw (e, nearest_of)

  nearest_of-starting :
      (key p rest : Key) (es : List (Key × T)) (n : ℕ)
      → key ≡ p ++ rest
      → (p ≢ [] → starting p es ≢ [])
      → ((s : Key) → s ≢ [] → prefix s rest ≡ true → starting (p ++ s) es ≡ [])
      → length p ≤ n
      → n ≤ length key
      → nearest_of key n es ≡ starting p es
  unfolding nearest_of
  nearest_of-starting key [] rest es zero e begun h le le' = sym (starting-nil es)
  nearest_of-starting key (c ∷ p) rest es zero e begun h le le' = absurd (omega arith)
  nearest_of-starting key p rest es (suc n) e begun h le le' =
      let j = take (suc n) key in
      let long = length-take (suc n) key le' in
      elim (last_or_less (length p) n le) [
        | inl here ↦
            let taken : j ≡ p =
              ap (λ x. take x key) (sym here)
              ∙ take-prefix p key (ap (prefix p) e ∙ prefix-append p rest) in
            let some_left : p ≢ [] = λ e'. no_length here e' in
            nearest_here key es n (subst (λ x. starting x es ≢ []) (sym taken) (begun some_left))
            ∙ ap (λ x. starting x es) taken
        | inr less ↦
            let gone : starting j es ≡ [] =
              elim (prefix-cases j p rest (ap (prefix j) (sym e) ∙ prefix-taken (suc n) key)) [
                | inl short ↦ absurd (omega (arith, prefix-length j p short, long))
                | inr (s, e', ne, h') ↦ ap (λ x. starting x es) e' ∙ h s ne h'
              ] in
            nearest_shorter key es n gone
            ∙ nearest_of-starting key p rest es n e begun h less (omega arith)
      ]
    where
      no_length : {p : Key} {n : ℕ} → length p ≡ suc n → p ≢ []
      no_length {p = []} h e = omega (arith, h)
      no_length {p = c ∷ p} h e = cc

  pub Nearest-of :
      (key : Key) (es : List (Key × T)) (ns : List (Node T))
      → Nearest key es ns
      → held ns ≡ present (nearest_of key (length key) es)
  Nearest-of key es ns h =
      let shorter : length h.p ≤ length key =
        rw (h.key_is) (prefix-length h.p (h.p ++ h.rest) (prefix-append h.p h.rest)) in
      h.leaves
      ∙ ap present (
          sym (
            nearest_of-starting key h.p h.rest es (length key) h.key_is h.begun h.longest shorter
              (omega arith)))
