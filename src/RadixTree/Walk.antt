-- ===== src/RadixTree/Walk.antt =====
-- The iterator: the walk over the leaves below a node.
use collection_of_mini_proje.Prelude.{
  ℕ, zero, suc, ◌+◌, ◌<◌, ◌≡◌, inl, inr, refl, ap, sym, ◌∙◌, Bool, if◌then◌else◌, true, false,
  Option, none, some, List, [], ◌∷◌, ◌++◌, arith, length, length-append, append_assoc,
}
use collection_of_mini_proje.RadixTree.Key.{Key}
use collection_of_mini_proje.RadixTree.Order.{rank, key_cmp-gt, key_cmp_refl}
use collection_of_mini_proje.RadixTree.Node.{
  Fields, Node, node, Children, nil, cons, Result, ok, failed, Location, fields, children,
}
use collection_of_mini_proje.RadixTree.Search.{greedy, greedy_children}
use collection_of_mini_proje.RadixTree.Spec.{Sorted, Compact, IsNode, AreNodes}
use collection_of_mini_proje.RadixTree.Rebuild.{IsNode-key}
use collection_of_mini_proje.RadixTree.Leaves.{held-append, held}
use collection_of_mini_proje.RadixTree.Iterate.{from_child, descend, increment, advance}

if_true : {A : Type 0} {b : Bool} (x y : A) → b ≡ true → (if b then x else y) ≡ x
if_true x y h = rw h

pub if_false : {A : Type 0} {b : Bool} (x y : A) → b ≡ false → (if b then x else y) ≡ y
if_false x y h = rw h

module _ {T : Type 0} where
  -- The values at an iterator and those behind it, up to the null iterator; `none` stands for a
  -- failed assertion, or for more than `fuel` values.
  unfoldable pub collect :
      (fuel : ℕ) → Result (Option (Location T)) → Option (List (Option (Key × T)))
  collect fuel failed = none
  collect fuel (ok none) = some []
  collect zero (ok (some l)) = none
  collect (suc fuel) (ok (some l)) = elim (collect fuel (advance (some l))) [
    | none ↦ none
    | some vs ↦ some ((fields l.0).value ∷ vs)
  ]

  abbrev pub adds :
      List (Option (Key × T)) → Option (List (Option (Key × T))) → Option (List (Option (Key × T)))
  adds vs none = none
  adds vs (some ws) = some (vs ++ ws)

  adds-append :
      (vs ws : List (Option (Key × T))) (o : Option (List (Option (Key × T))))
      → adds (vs ++ ws) o ≡ adds vs (adds ws o)
  adds-append vs ws none = refl
  adds-append vs ws (some us) = ap some (append_assoc vs ws us)

  abbrev pub start : Result (Location T) → Result (Option (Location T))
  start failed = failed
  start (ok l) = ok (some l)

  -- Each of the children `cs` is found in `all`, with those behind it.
  abbrev pub Suffixes : Children T → Children T → Type 0
  Suffixes all nil = Unit
  Suffixes all (cons k c cs) = (from_child k all ≡ cons k c cs) × Suffixes all cs

  Suffixes-cons :
      (j : Key) (m : Node T) (all : Children T) (b : ℕ) (cs : Children T)
      → rank j < b
      → Sorted b cs
      → Suffixes all cs
      → Suffixes (cons j m all) cs
  unfolding from_child
  Suffixes-cons j m all b nil h s x = tt
  Suffixes-cons j m all b (cons k c cs) h s (e, x) = (
    rw (key_cmp-gt k j (omega (arith, h, s.0)), from_child) e,
    Suffixes-cons j m all (suc (rank k)) cs (omega (arith, h, s.0)) s.1 x,
  )

  pub Suffixes-self : (b : ℕ) (cs : Children T) → Sorted b cs → Suffixes cs cs
  unfolding from_child
  Suffixes-self b nil s = tt
  Suffixes-self b (cons k c cs) s = (
    rw (key_cmp_refl k, from_child),
    Suffixes-cons k c cs (suc (rank k)) cs (omega arith) s.1 (Suffixes-self (suc (rank k)) cs s.1),
  )

  -- Where the walk goes for the children `cs` of a node: to the first, if there is one, or on.
  abbrev pub towards : Children T → Node T → List (Node T) → Result (Option (Location T))
  towards nil parent up = increment parent up
  towards (cons k c cs) parent up = start (descend c (parent ∷ up))

  pub start-elim :
      (o : Result (Location T)) → elim o [ failed ↦ failed | ok l ↦ ok (some l) ] ≡ start o
  start-elim failed = refl
  start-elim (ok l) = refl

  increment-towards :
      (c parent : Node T) (up : List (Node T)) (k : Key) (cs : Children T)
      → from_child (fields c).key (children parent) ≡ cons k c cs
      → increment c (parent ∷ up) ≡ towards cs parent up
  unfolding increment
  increment-towards c parent up k nil e = rw (e, increment)
  increment-towards c parent up k (cons j next cs) e =
      rw (e, increment) (start-elim (descend next (parent ∷ up)))

  greedy-leaf :
      (f : Fields T) (cs : Children T) → f.is_leaf ≡ true → greedy (node f cs) ≡ node f cs ∷ []
  unfolding greedy
  greedy-leaf f cs h = if_true _ _ h

  greedy-inner :
      (f : Fields T) (cs : Children T) → f.is_leaf ≡ false → greedy (node f cs) ≡ greedy_children cs
  unfolding greedy
  greedy-inner f cs h = if_false _ _ h

  greedy-cons :
      (k : Key) (c : Node T) (cs : Children T)
      → greedy_children (cons k c cs) ≡ greedy c ++ greedy_children cs
  unfolding greedy
  greedy-cons k c cs = refl

  greedy-nil : greedy_children {T = T} nil ≡ []
  unfolding greedy
  greedy-nil = refl

  descend-leaf :
      (f : Fields T) (cs : Children T) (up : List (Node T))
      → f.is_leaf ≡ true
      → descend (node f cs) up ≡ ok (node f cs, up)
  unfolding descend
  descend-leaf f cs up h = if_true _ _ h

  descend-inner :
      (f : Fields T) (cs : Children T) (up : List (Node T))
      → f.is_leaf ≡ false
      → Compact cs
      → start (descend (node f cs) up) ≡ towards cs (node f cs) up
  unfolding descend
  descend-inner f nil up h (inl two) = absurd (omega (arith, two))
  descend-inner f nil up h (inr first) = cc
  descend-inner f (cons k c cs) up h compact = ap start (if_false _ _ h)

  adds-nil : (o : Option (List (Option (Key × T)))) → adds [] o ≡ o
  adds-nil none = refl
  adds-nil (some vs) = refl

  collect-one :
      (n : Node T) (up : List (Node T)) (fuel : ℕ)
      → collect (suc fuel) (ok (some (n, up)))
        ≡ adds ((fields n).value ∷ []) (collect fuel (increment n up))
  unfolding collect advance
  collect-one n up fuel = one (fields n).value (collect fuel (increment n up))
    where
      one :
          (v : Option (Key × T)) (o : Option (List (Option (Key × T))))
          → elim o [ none ↦ none | some vs ↦ some (v ∷ vs) ] ≡ adds (v ∷ []) o
      one v none = refl
      one v (some vs) = refl

  -- A walk through one child and then the others.
  walk-both :
      (ns ms : List (Node T)) (fuel : ℕ) (from middle : Result (Option (Location T)))
      (last : Option (List (Option (Key × T))))
      → collect (length ns + (length ms + fuel)) from
        ≡ adds (held ns) (collect (length ms + fuel) middle)
      → collect (length ms + fuel) middle ≡ adds (held ms) last
      → collect (length (ns ++ ms) + fuel) from ≡ adds (held (ns ++ ms)) last
  walk-both ns ms fuel from middle last h h' =
      ap (λ x. collect x from) (omega (arith, length-append ns ms))
      ∙ h
      ∙ ap (adds (held ns)) h'
      ∙ sym (adds-append (held ns) (held ms) last)
      ∙ ap (λ x. adds x last) (sym (held-append ns ms))

  mutual
    -- From the first leaf below a node the walk takes all its leaves, and goes on behind the node.
    walk-node :
        (p k : Key) (n : Node T) (up : List (Node T)) (fuel : ℕ)
        → IsNode p k n
        → collect (length (greedy n) + fuel) (start (descend n up))
          ≡ adds (held (greedy n)) (collect fuel (increment n up))
    walk-node p k (node f cs) up fuel (_, _, inl l, _, _) =
        rw (greedy-leaf f cs l.leaf, descend-leaf f cs up l.leaf)
          (ap (λ x. collect x (ok (some (node f cs, up)))) (omega arith)
            ∙ collect-one (node f cs) up fuel)
    walk-node p k (node f cs) up fuel (_, _, inr i, s, a) =
        rw (greedy-inner f cs i.internal, descend-inner f cs up i.internal i.compact)
          (walk-children (p ++ k) cs (node f cs) up fuel a (Suffixes-self 0 cs s))

    pub walk-children :
        (q : Key) (cs : Children T) (parent : Node T) (up : List (Node T)) (fuel : ℕ)
        → AreNodes q cs
        → Suffixes (children parent) cs
        → collect (length (greedy_children cs) + fuel) (towards cs parent up)
          ≡ adds (held (greedy_children cs)) (collect fuel (increment parent up))
    walk-children q nil parent up fuel a x = rw greedy-nil (
        ap (λ x. collect x (increment parent up)) (omega arith)
        ∙ sym (adds-nil (collect fuel (increment parent up))))
    walk-children q (cons k c cs) parent up fuel a x =
        let key = IsNode-key q k c a.0 in
        let on =
          increment-towards c parent up k cs (ap (λ y. from_child y (children parent)) key ∙ x.0) in
        rw (greedy-cons k c cs) (
          walk-both (greedy c) (greedy_children cs) fuel (start (descend c (parent ∷ up)))
            (increment c (parent ∷ up)) (collect fuel (increment parent up))
            (walk-node q k c (parent ∷ up) (length (greedy_children cs) + fuel) a.0)
            (ap (collect (length (greedy_children cs) + fuel)) on
              ∙ walk-children q cs parent up fuel a.1 x.1))
