-- ===== src/RadixTree/Prepend/Upper.antt =====
-- `prepend`: the nodes at the cut. The child keeps the second part of its key below a new node.
use collection_of_mini_proje.Prelude.{
  ℕ, ◌+◌, ◌≡◌, ◌≢◌, inl, inr, refl, ap, sym, subst, ◌∙◌, false, none, [], ◌++◌, length, arith,
  append_assoc, length-append,
}
use collection_of_mini_proje.RadixTree.Key.{Key}
use collection_of_mini_proje.RadixTree.Order.{key_cmp_sound, rank}
use collection_of_mini_proje.RadixTree.Node.{
  Node, node, cons, fields, children, is_leaf, key_of, new_node, assign, nil, attach, count,
}
use collection_of_mini_proje.RadixTree.Spec.{IsNode, AreNodes}
use collection_of_mini_proje.RadixTree.Map.{Free-Only}
use collection_of_mini_proje.RadixTree.Locations.{IsInner}
use collection_of_mini_proje.RadixTree.Rebuild.{IsNode-key, attach-Attached}
use collection_of_mini_proje.RadixTree.NewChild.{NewChild}

rank_of_eq : (k j : Key) → k ≡ j → rank k ≡ rank j
rank_of_eq k j e = ap rank e

module _ {T : Type 0} where
  -- The child with the second part of its key.
  abbrev pub lower : ℕ → Key → Node T → Node T
  lower d k c = node (record (fields c) { depth = d; key = k }) (children c)

  pub IsNode-lower :
      (q h k2 : Key) (d : ℕ) (c : Node T)
      → IsNode q (h ++ k2) c
      → is_leaf c ≡ false
      → k2 ≢ []
      → d ≡ length q + length h
      → IsNode (q ++ h) k2 (lower d k2 c)
  IsNode-lower q h k2 d (node f cs) (key, depth, kind, s, a) inner ne e = (
    refl,
    e ∙ sym (length-append q h),
    elim kind [
      | inl l ↦ cc (l.leaf)
      | inr i ↦ inr (record { internal = inner; has_key = ne; compact = i.compact })
    ],
    s,
    subst (λ x. AreNodes x cs) (sym (append_assoc q h k2)) a,
  )

  -- The new node `a` above it.
  abbrev pub upper : Key → ℕ → Key → Node T → Node T
  upper h d k2 n' = new_node h d false none (cons k2 n' nil)

  pub upper-IsInner :
      (q h k2 : Key) (d : ℕ) (n' : Node T)
      → d ≡ length q
      → IsNode (q ++ h) k2 n'
      → IsInner (q ++ h) (upper h d k2 n')
  upper-IsInner q h k2 d n' e is = record {
    full = omega (arith, length-append q h);
    internal = refl;
    sorted = (omega arith, tt);
    nodes = (is, tt);
  }

  -- With the new entry below it, `a` is a node in the child's place.
  count-assign_two :
      (k k2 : Key) (n m : Node T) → rank k ≢ rank k2 → count (assign k n (cons k2 m nil)) ≡ 2
  unfolding assign
  count-assign_two k k2 n m ne = ground (arith, key_cmp_sound k k2, rank_of_eq k k2)

  pub split-IsNode :
      (q h k2 r2 : Key) (d : ℕ) (v : T) (n' new : Node T)
      → d ≡ length q
      → h ≢ []
      → IsNode (q ++ h) k2 n'
      → NewChild (q ++ h) r2 v new
      → rank k2 ≢ rank r2
      → IsNode q h (attach new (upper h d k2 n'))
  unfolding attach
  split-IsNode q h k2 r2 d v n' new e ne is new_is apart =
      let inner = upper-IsInner q h k2 d n' e is in
      let a =
        attach-Attached (q ++ h) r2 new (upper h d k2 n') inner
          (Free-Only r2 (cons k2 n' nil) (apart, tt)) new_is.is in
      let key = IsNode-key (q ++ h) r2 new new_is.is in
      let count_two : count (assign (key_of new) new (cons k2 n' nil)) ≡ 2 =
        rw key (count-assign_two r2 k2 new n' (λ x. apart (sym x))) in
      (
        refl,
        e,
        inr (record { internal = refl; has_key = ne; compact = inl (omega (arith, count_two)) }),
        a.sorted,
        a.nodes,
      )
