-- ===== src/RadixTree/Child.antt =====
-- The map of children: the child that is found, and how many there are.
use collection_of_mini_proje.Prelude.{
  ℕ, suc, ◌≤◌, ◌≡◌, ◌⊎◌, inl, inr, refl, ap, subst, true, false, none, some, length, drop, arith,
}
use collection_of_mini_proje.RadixTree.Key.{Key}
use collection_of_mini_proje.RadixTree.Order.{rank, prefix, hits, key_cmp_sound, rank_le_of_lt}
use collection_of_mini_proje.RadixTree.Node.{Node, Children, nil, cons, count, find_child, assign}
use collection_of_mini_proje.RadixTree.Spec.{
  get, get_in, Sorted, leaf_first, Compact, IsNode, AreNodes,
}
use collection_of_mini_proje.RadixTree.Map.{Only, Free-Only, Sorted-Free}

hits_miss : (k j r : Key) → (j ≡ k) → prefix k r ≡ false → hits j r ≡ false
hits_miss k j r e h = rw e (ground arith)

module _ {T : Type 0} where
  -- The child that is found is the only one with its first byte, and the search goes into it.
  pub record Child (q k : Key) (n : Node T) (cs : Children T) : Type 0 where
    pub is : IsNode q k n
    pub only : Only k cs
    pub into : (r : Key) → hits k r ≡ true → get_in r cs ≡ get (drop (length k) r) n

  pub find_child-cases :
      (k j : Key) (c n : Node T) (cs : Children T)
      → find_child k (cons j c cs) ≡ some n
      → ((j ≡ k) × (c ≡ n)) ⊎ (find_child k cs ≡ some n)
  unfolding find_child
  find_child-cases k j c n cs h = ground (arith, key_cmp_sound k j)

  pub find_child-rank :
      (k : Key) (n : Node T) (b : ℕ) (cs : Children T)
      → Sorted b cs
      → find_child k cs ≡ some n
      → b ≤ rank k
  unfolding find_child
  find_child-rank k n b nil s h = cc
  find_child-rank k n b (cons j c cs) s h = elim (find_child-cases k j c n cs h) [
    | inl (e, _) ↦ subst (λ x. b ≤ rank x) e s.0
    | inr later ↦ omega (arith, s.0, find_child-rank k n (suc (rank j)) cs s.1 later)
  ]

  pub find_child-Child :
      (q k : Key) (n : Node T) (b : ℕ) (cs : Children T)
      → Sorted b cs
      → AreNodes q cs
      → find_child k cs ≡ some n
      → Child q k n cs
  unfolding get
  find_child-Child q k n b nil s a h = unfold find_child in cc
  find_child-Child q k n b (cons j c cs) s a h = elim (find_child-cases k j c n cs h) [
    | inl (e, e') ↦ record {
      is = subst (λ x. IsNode q x n) e (subst (λ x. IsNode q j x) e' a.0);
      only = (
        λ _. e,
        subst (λ x. Only x cs) e
            (Free-Only j cs (Sorted-Free (rank j) (suc (rank j)) cs s.1 (omega arith))),
      );
      into = λ r hit. rw (e, hit) (ap (get (drop (length k) r)) e');
    }
    | inr later ↦
        let ih = find_child-Child q k n (suc (rank j)) cs s.1 a.1 later in
        let after = find_child-rank k n (suc (rank j)) cs s.1 later in
        record {
          is = ih.is;
          only = (λ e. absurd (omega arith), ih.only);
          into = λ r hit.
              let miss : hits j r ≡ false = ground (arith, after) in rw miss (ih.into r hit);
        }
  ]

  count-assign : (k : Key) (n : Node T) (cs : Children T) → count cs ≤ count (assign k n cs)
  unfolding assign
  count-assign k n nil = omega arith
  count-assign k n (cons j c cs) = ground (arith, count-assign k n cs)

  pub leaf_first-assign :
      (k : Key) (n : Node T) (cs : Children T)
      → leaf_first cs ≡ true
      → leaf_first (assign k n cs) ≡ true
  unfolding assign
  leaf_first-assign k n nil h = cc
  leaf_first-assign k n (cons j c cs) h = ground (arith, rank_le_of_lt k j)

  pub Compact-assign :
      (k : Key) (n : Node T) (cs : Children T) → Compact cs → Compact (assign k n cs)
  Compact-assign k n cs (inl h) = inl (omega (arith, count-assign k n cs))
  Compact-assign k n cs (inr h) = inr (leaf_first-assign k n cs h)

  -- A key that shares only its first bytes with the child of its rank is not found.
  pub get_in_miss :
      (k r : Key) (cs : Children T)
      → Only k cs
      → rank r ≡ rank k
      → prefix k r ≡ false
      → get_in r cs ≡ none
  unfolding get
  get_in_miss k r nil o e h = refl
  get_in_miss k r (cons j c cs) o e h = ground (arith, get_in_miss k r cs o.1, o.0, hits_miss k j r)
