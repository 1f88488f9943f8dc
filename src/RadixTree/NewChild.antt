-- ===== src/RadixTree/NewChild.antt =====
-- The nodes that `append` and `prepend` make for a new entry: a leaf, or an inner node with a leaf.
use collection_of_mini_proje.Prelude.{
  ℕ, ◌+◌, ◌≡◌, ◌≢◌, inl, inr, refl, ap, sym, subst, ◌∙◌, true, false, ◌&&◌, Option, none, some, [],
  ◌∷◌, ◌++◌, ◌==◌, length, drop, arith, if◌then◌else◌, Bool-cases, append-nil, length-append,
}
use collection_of_mini_proje.RadixTree.Key.{Key, nul, key_eq}
use collection_of_mini_proje.RadixTree.Order.{rank, prefix, hits, rank_zero}
use collection_of_mini_proje.RadixTree.Node.{Node, nil, children, is_leaf, new_node, assign, attach}
use collection_of_mini_proje.RadixTree.Spec.{get, get_in, contents, IsNode}
use collection_of_mini_proje.RadixTree.Map.{Free, Free-Only, get_in-Free}
use collection_of_mini_proje.RadixTree.Locate.{is_nil}
use collection_of_mini_proje.RadixTree.Locations.{IsInner}
use collection_of_mini_proje.RadixTree.Rebuild.{attach-Attached, get-inner, fields-attach}

-- `j` is `p ++ r` exactly if `p` is a prefix and `r` is the rest.
pub key_eq-++ : (p r j : Key) → key_eq (p ++ r) j ≡ (prefix p j && key_eq r (drop (length p) j))
unfolding key_eq
key_eq-++ [] r j = refl
key_eq-++ (c ∷ p) r [] = refl
key_eq-++ (c ∷ p) r (d ∷ j) = ground (arith, key_eq-++ p r j)

pub key_eq-rank : (a b : Key) → key_eq a b ≡ true → rank a ≡ rank b
unfolding key_eq
key_eq-rank [] [] h = refl
key_eq-rank [] (d ∷ b) h = cc
key_eq-rank (c ∷ a) [] h = cc
key_eq-rank (c ∷ a) (d ∷ b) h = ground arith

pub key_eq-nil : (r : Key) → key_eq [] r ≡ is_nil r
unfolding key_eq
key_eq-nil [] = refl
key_eq-nil (c ∷ r) = refl

pub hits-nil : (r : Key) → hits [] r ≡ is_nil r
hits-nil [] = refl
hits-nil (c ∷ r) = ground arith

pub key_eq-prefix : (k r : Key) → key_eq k r ≡ (prefix k r && is_nil (drop (length k) r))
key_eq-prefix k r =
    ap (λ x. key_eq x r) (sym (append-nil k))
    ∙ key_eq-++ k [] r
    ∙ ap (λ b. prefix k r && b) (key_eq-nil (drop (length k) r))

apart_prefix :
    (k r : Key) → (rank r == rank k) ≡ false → (prefix k r && is_nil (drop (length k) r)) ≡ false
apart_prefix k r h = elim (Bool-cases (prefix k r && is_nil (drop (length k) r))) [
  | inl e ↦ ground (arith, key_eq-rank k r (key_eq-prefix k r ∙ e))
  | inr e ↦ e
]

module _ {T : Type 0} where
  -- A node under the key `rest` of a parent with the path `p`, with the one entry `p ++ rest`.
  pub record NewChild (p rest : Key) (v : T) (n : Node T) : Type 0 where
    pub is : IsNode p rest n
    pub search :
        (r : Key)
        → rank r ≡ rank rest
        → prefix rest r ≡ true
        → get (drop (length rest) r) n ≡ (if is_nil (drop (length rest) r) then some v else none)
    pub total : length (contents n) ≡ 1

  pub leaf-NewChild :
      (p : Key) (d : ℕ) (key : Key) (v : T)
      → d ≡ length p
      → key ≡ p
      → NewChild p [] v (new_node nul d true (some (key, v)) nil)
  unfolding get contents
  leaf-NewChild p d key v e e' = record {
    is = (
      refl,
      e,
      inl (record {
        leaf = refl;
        no_key = refl;
        no_children = refl;
        v = v;
        holds = ap (λ k. some (k, v)) e';
      }),
      tt,
      tt,
    );
    search = λ r zero_rank h. rw (rank_zero r zero_rank);
    total = refl;
  }

  pub inner-NewChild :
      (p rest : Key) (d d' : ℕ) (key : Key) (v : T) (value : Option (Key × T))
      → rest ≢ []
      → d ≡ length p
      → d' ≡ length p + length rest
      → key ≡ p ++ rest
      → NewChild p rest v
          (new_node rest d false value (assign nul (new_node nul d' true (some (key, v)) nil) nil))
  unfolding get contents assign
  inner-NewChild p rest d d' key v value ne e e' e'' = record {
    is = (
      refl,
      e,
      inr (record { internal = refl; has_key = ne; compact = inr refl }),
      (omega arith, tt),
      (
        (
          refl,
          e' ∙ sym (length-append p rest),
          inl (record {
            leaf = refl;
            no_key = refl;
            no_children = refl;
            v = v;
            holds = ap (λ k. some (k, v)) e'';
          }),
          tt,
          tt,
        ),
        tt,
      ),
    );
    search = λ r h h'. ap (λ b. if b then some v else none) (hits-nil (drop (length rest) r));
    total = refl;
  }

  -- A node that gets a new entry below it: the entry is found, and all others as before.
  pub attach-NewChild :
      (q rest : Key) (v : T) (c n : Node T) (r : Key)
      → IsInner q n
      → Free (rank rest) (children n)
      → NewChild q rest v c
      → get r (attach c n) ≡ (if key_eq rest r then some v else get r n)
  attach-NewChild q rest v c n r inner free new =
      let a = attach-Attached q rest c n inner (Free-Only rest (children n) free) new.is in
      let leaf' : is_leaf (attach c n) ≡ false =
        ap (λ f. f.is_leaf) (fields-attach c n) ∙ inner.internal in
      rw
        (
          get-inner r (attach c n) leaf',
          a.search r,
          get-inner r n inner.internal,
          key_eq-prefix rest r,
        )
        (elim (Bool-cases (rank r == rank rest)) [
          | inl same ↦
              let absent : get_in r (children n) ≡ none =
                get_in-Free r (children n)
                  (subst (λ x. Free x (children n)) (sym (same_rank r same)) free) in
              elim (Bool-cases (prefix rest r)) [
                | inl through ↦ rw (same, through, new.search r (same_rank r same) through, absent)
                | inr other ↦ rw (same, other, absent)
              ]
          | inr apart ↦
              let other : (prefix rest r && is_nil (drop (length rest) r)) ≡ false =
                apart_prefix rest r apart in
              rw (apart, other)
        ])
    where
      same_rank : (r : Key) → (rank r == rank rest) ≡ true → rank r ≡ rank rest
      same_rank r h = ground arith
