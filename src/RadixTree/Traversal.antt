-- ===== src/RadixTree/Traversal.antt =====
-- The iterator: the walk from `begin` by `++` against the list of entries.
use collection_of_mini_proje.Prelude.{
  suc, ◌+◌, ◌≡◌, ◌≢◌, ◌⊎◌, inl, inr, refl, ap, sym, ◌∙◌, false, none, some, List, [], ◌∷◌, arith,
  length, append-nil,
}
use collection_of_mini_proje.RadixTree.Key.{Key}
use collection_of_mini_proje.RadixTree.Node.{Fields, Node, node, Children, nil, cons, ok, Tree}
use collection_of_mini_proje.RadixTree.Search.{greedy_children}
use collection_of_mini_proje.RadixTree.Spec.{
  contents, contents_of, entries, IsRoot, IsTree, no_root, rooted,
}
use collection_of_mini_proje.RadixTree.Leaves.{
  held, present, under-nil, greedy_children-held, contents-inner,
}
use collection_of_mini_proje.RadixTree.Iterate.{descend, increment, begin}
use collection_of_mini_proje.RadixTree.Walk.{
  if_false, collect, adds, start, Suffixes-self, towards, start-elim, walk-children,
}

module _ {T : Type 0} where
  length-present : (es : List (Key × T)) → length (present es) ≡ length es
  length-present [] = refl
  length-present (e ∷ es) = ap suc (length-present es)

  length-held : (ns : List (Node T)) → length (held ns) ≡ length ns
  length-held [] = refl
  length-held (n ∷ ns) = ap suc (length-held ns)

  entries-none : (t : Tree T) → t.root ≡ none → entries t ≡ []
  unfolding entries
  entries-none t e = rw e

  entries-root :
      (t : Tree T) (f : Fields T) (cs : Children T)
      → t.root ≡ some (node f cs)
      → f.is_leaf ≡ false
      → entries t ≡ contents_of cs
  unfolding entries
  entries-root t f cs e h = rw e (contents-inner f cs h)

  begin-none : (t : Tree T) → t.root ≡ none → begin t ≡ ok none
  unfolding begin
  begin-none t e = rw e

  begin-root : (t : Tree T) (n : Node T) → t.root ≡ some n → begin t ≡ start (descend n [])
  unfolding begin
  begin-root t n e = rw e (start-elim (descend n []))

  collect-end : (n : Node T) → collect 0 (increment n []) ≡ some []
  unfolding collect increment
  collect-end n = refl

  root-walk :
      (t : Tree T) (n : Node T)
      → t.root ≡ some n
      → IsRoot n
      → entries t ≢ []
      → collect (length (entries t)) (begin t) ≡ some (present (entries t))
  root-walk t (node f nil) e r ne =
      absurd (ne (entries-root t f nil e r.internal ∙ unfold contents in refl))
  root-walk t (node f (cons k c cs)) e r ne =
      let all = cons k c cs in
      let listed : entries t ≡ contents_of all = entries-root t f all e r.internal in
      let leaves : held (greedy_children all) ≡ present (entries t) =
        greedy_children-held [] all r.nodes
        ∙ ap present (under-nil (contents_of all) ∙ sym listed) in
      let enough : length (greedy_children all) + 0 ≡ length (entries t) = omega (
        arith,
        sym (length-held (greedy_children all)) ∙ ap length leaves ∙ length-present (entries t),
      ) in
      let descended : begin t ≡ towards all (node f all) [] =
        begin-root t (node f all) e ∙ ap start (unfold descend in if_false _ _ r.internal) in
      rw descended (
        ap (λ x. collect x (towards all (node f all) [])) (sym enough)
        ∙ walk-children [] all (node f all) [] 0 r.nodes (Suffixes-self 0 all r.sorted)
        ∙ ap (adds (held (greedy_children all))) (collect-end (node f all))
        ∙ ap some (append-nil (held (greedy_children all)) ∙ leaves))

  -- In a well-formed tree that has an entry, or no root, the walk from `begin` by `++` reaches the null
  -- iterator without a failed assertion, and takes exactly the entries, in their order.
  pub begin-entries :
      (t : Tree T)
      → IsTree t
      → (t.root ≡ none) ⊎ (entries t ≢ [])
      → collect (length (entries t)) (begin t) ≡ some (present (entries t))
  unfolding collect
  begin-entries t (no_root e _) h = rw (entries-none t e, begin-none t e)
  begin-entries t (rooted {n} e r _) (inl e') = cc (e, e')
  begin-entries t (rooted {n} e r _) (inr ne) = root-walk t n e r ne
