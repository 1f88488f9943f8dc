-- ===== src/RadixTree/Longest.antt =====
-- `longest_match` against the list of entries.
use collection_of_mini_proje.Prelude.{
  ◌≡◌, inl, inr, ap, sym, subst, ◌∙◌, true, false, not, Option, none, some, [], ◌∷◌, ◌++◌,
  if◌then◌else◌, fun_ext, length, append_assoc, Bool-cases,
}
use collection_of_mini_proje.RadixTree.Key.{Key, key_eq, radix_substr, radix_length}
use collection_of_mini_proje.RadixTree.Order.{
  prefix, prefix-append, prefix-rank, prefix-take, drop-append,
}
use collection_of_mini_proje.RadixTree.Node.{Node, Tree, Location, fields, children, is_leaf}
use collection_of_mini_proje.RadixTree.Search.{find_node, climb, longest_match}
use collection_of_mini_proje.RadixTree.Spec.{get, entries, lookup, IsRoot, IsTree, no_root, rooted}
use collection_of_mini_proje.RadixTree.Map.{Free, get_in-Free}
use collection_of_mini_proje.RadixTree.Locate.{find_node_lem}
use collection_of_mini_proje.RadixTree.Locations.{Found, at_leaf, stuck, partial}
use collection_of_mini_proje.RadixTree.Rebuild.{Child-of, IsNode-key, get-inner, get-IsLoc}
use collection_of_mini_proje.RadixTree.Prepend.Adds.{IsNode-depth}
use collection_of_mini_proje.RadixTree.Entries.{root-lookup}
use collection_of_mini_proje.RadixTree.Lookup.{Found-Answer}
use collection_of_mini_proje.RadixTree.Matches.{IsLoc-Standing}
use collection_of_mini_proje.RadixTree.Prefixes.{prefix_trans}
use collection_of_mini_proje.RadixTree.Climb.{
  Longest, Longest-extend, Longest-here, inside_none, climb-Longest,
}

module _ {T : Type 0} where
  module _ (root : Node T) where
    -- What `longest_match` returns for a result of `find_node`.
    abbrev match_at : Key → Location T → Option (Location T)
    match_at key (n, up) =
        let key_sub = radix_substr key (fields n).depth (radix_length (fields n).key) in
        if is_leaf n
        then some (n, up)
        else climb (if not (key_eq key_sub (fields n).key) then up else n ∷ up)

    -- The test at a node with the path `p` above it.
    key_sub-prefix :
        (p x : Key) (n : Node T)
        → (fields n).depth ≡ length p
        → key_eq
            (radix_substr (p ++ x) (fields n).depth (radix_length (fields n).key))
            (fields n).key
          ≡ prefix (fields n).key x
    key_sub-prefix p x n e = rw (e, drop-append p x) (prefix-take (fields n).key x)

    Found-Longest :
        {key : Key} {l : Location T}
        → IsRoot root
        → Found root key l
        → Longest key (λ j. get j root) (match_at key l)
    Found-Longest {key} r (at_leaf {c} {parent} {up} q loc inner found e leaf) =
        elim (Found-Answer (at_leaf q loc inner found e leaf)) [
          | inl (_, (v, holds, value)) ↦
              rw leaf (Longest-here key (λ j. get j root) (c, parent ∷ up) v holds value)
          | inr (deep, _) ↦ cc (leaf, deep)
        ]
    Found-Longest {key} r (stuck {n} {up} q rest loc inner e free) =
        let s = IsLoc-Standing r loc in
        let tested : key_eq (radix_substr key (fields n).depth (radix_length (fields n).key))
              (fields n).key
            ≡ true =
          ap
            (λ x.
              key_eq (radix_substr x (fields n).depth (radix_length (fields n).key)) (fields n).key)
            (e ∙ ap (λ x. x ++ rest) s.path ∙ append_assoc s.p (fields n).key rest)
          ∙ key_sub-prefix s.p ((fields n).key ++ rest) n s.depth
          ∙ prefix-append (fields n).key rest in
        rw (inner.internal, tested)
          (subst (λ x. Longest x (λ j. get j root) (climb (n ∷ up))) (sym e)
            (Longest-extend q rest (λ j. get j root) (climb (n ∷ up))
              (λ s ne p.
                get-IsLoc s loc inner.internal
                ∙ get-inner s n inner.internal
                ∙ get_in-Free s (children n)
                    (subst (λ x. Free x (children n)) (prefix-rank s rest ne p) free))
              (climb-Longest root loc inner)))
    Found-Longest {key} r (partial {c} {parent} {up} q k rest loc inner found deep e same part) =
        let is = (Child-of inner found).is in
        let tested : key_eq (radix_substr key (fields c).depth (radix_length (fields c).key))
              (fields c).key
            ≡ false =
          ap
            (λ x.
              key_eq (radix_substr x (fields c).depth (radix_length (fields c).key)) (fields c).key)
            e
          ∙ key_sub-prefix q rest c (IsNode-depth q k c is)
          ∙ ap (λ x. prefix x rest) (IsNode-key q k c is)
          ∙ part in
        rw (deep, tested)
          (subst (λ x. Longest x (λ j. get j root) (climb (parent ∷ up))) (sym e)
            (Longest-extend q rest (λ j. get j root) (climb (parent ∷ up))
              (λ s ne p.
                inside_none root k s loc inner found (sym (prefix-rank s rest ne p) ∙ sym same)
                  (elim (Bool-cases (prefix k s)) [
                    | inl through ↦ cc (prefix_trans k s rest through p, part)
                    | inr miss ↦ miss
                  ]))
              (climb-Longest root loc inner)))

  longest_match-at :
      (key : Key) (t : Tree T) (root : Node T)
      → t.root ≡ some root
      → longest_match key t ≡ match_at root key (find_node key root 0 [])
  unfolding longest_match
  longest_match-at key t root e = rw e

  longest_match-empty : (key : Key) (t : Tree T) → t.root ≡ none → longest_match key t ≡ none
  unfolding longest_match
  longest_match-empty key t e = rw e

  -- In a well-formed tree `longest_match` returns the null iterator if no prefix of the key has an
  -- entry; else it leads to the longest prefix of the key that has one, and its value.
  pub longest_match-lookup :
      (key : Key) (t : Tree T)
      → IsTree t
      → Longest key (λ j. lookup j (entries t)) (longest_match key t)
  longest_match-lookup key t (no_root e _) =
      rw (longest_match-empty key t e) (λ j p. unfold entries lookup in rw e)
  longest_match-lookup key t (rooted {n} e r _) =
      let listed : (j : Key) → get j n ≡ lookup j (entries t) =
        λ j. root-lookup n r j ∙ unfold entries in rw e in
      let same : (λ (j : Key). get j n) ≡ (λ (j : Key). lookup j (entries t)) = fun_ext listed in
      subst (λ g. Longest key g (longest_match key t)) same
        (rw (longest_match-at key t n e) (Found-Longest n r (find_node_lem n key r)))
