-- ===== src/RadixTree/Subscript.antt =====
-- `operator[]` against the list of entries: `tree[key] = v`.
use collection_of_mini_proje.Prelude.{
  ◌≡◌, inl, inr, refl, ap, sym, subst, ◌∙◌, true, false, none, some, [], if◌then◌else◌, Bool-cases,
}
use collection_of_mini_proje.RadixTree.Key.{Key, key_eq}
use collection_of_mini_proje.RadixTree.Order.{key_eq_refl}
use collection_of_mini_proje.RadixTree.Node.{Node, Tree, ok, Location, is_leaf}
use collection_of_mini_proje.RadixTree.Search.{find_node, find}
use collection_of_mini_proje.RadixTree.Insert.{root_of, insert, at_key, store, set_at}
use collection_of_mini_proje.RadixTree.Spec.{get, entries, lookup, IsRoot, IsTree, no_root, rooted}
use collection_of_mini_proje.RadixTree.Locate.{find_node_lem}
use collection_of_mini_proje.RadixTree.Locations.{Found}
use collection_of_mini_proje.RadixTree.Count.{total}
use collection_of_mini_proje.RadixTree.Entries.{root-lookup}
use collection_of_mini_proje.RadixTree.Lookup.{Found-Answer}
use collection_of_mini_proje.RadixTree.Insertion.{insert-lookup, root_of-lem}
use collection_of_mini_proje.RadixTree.Store.{Found-Stored}

module _ {T : Type 0} where
  pub at_key-found :
      (d : T) (key : Key) (t : Tree T) (l : Location T)
      → find key t ≡ some l
      → at_key d key t ≡ ok (t, l)
  unfolding at_key
  at_key-found d key t l h = rw (h, at_key)

  pub at_key-new :
      (d : T) (key : Key) (t t1 : Tree T) (l : Location T)
      → find key t ≡ none
      → insert (key, d) t ≡ ok (t1, l, true)
      → at_key d key t ≡ ok (t1, l)
  unfolding at_key
  at_key-new d key t t1 l h h' = rw (h, h', at_key)

module _ {T : Type 0} (v : T) where
  -- The tree after `tree[key] = v`, where `d` is the value that a new entry gets first.
  pub record Sets (d : T) (key : Key) (t : Tree T) : Type 0 where
    pub t' : Tree T
    pub returned : set_at d key v t ≡ ok t'
    pub is : IsTree t'
    pub search :
        (j : Key) → lookup j (entries t') ≡ (if key_eq key j then some v else lookup j (entries t))

  root-entries :
      (t : Tree T) (n : Node T)
      → t.root ≡ some n
      → (j : Key) → IsRoot n
      → lookup j (entries t) ≡ get j n
  unfolding entries
  root-entries t n e j r = rw e (sym (root-lookup n r j))

  -- A tree whose pointer for the key is written through.
  written :
      (d : T) (key : Key) (t t1 : Tree T) (n : Node T) (l : Location T)
      → IsRoot n
      → t1.root ≡ some n
      → t1.size ≡ total n
      → Found n key l
      → is_leaf l.0 ≡ true
      → set_at d key v t ≡ ok (record t1 { root = some (store v l) })
      → ((j : Key) → key_eq key j ≡ false → lookup j (entries t1) ≡ lookup j (entries t))
      → Sets d key t
  written d key t t1 n l r e size found leaf returned others =
      let s = Found-Stored v r found leaf in
      let t' = record t1 { root = some (store v l) } in
      record {
        t' = t';
        returned = returned;
        is = rooted refl s.is (size ∙ sym s.same_total);
        search = λ j.
            root-entries t' (store v l) refl j s.is
            ∙ s.search j
            ∙ elim (Bool-cases (key_eq key j)) [
              | inl same ↦ rw same
              | inr other ↦ rw other (sym (root-entries t1 n e j r) ∙ others j other)
            ];
      }

  set_at-stored :
      (d : T) (key : Key) (t t1 : Tree T) (l : Location T)
      → at_key d key t ≡ ok (t1, l)
      → set_at d key v t ≡ ok (record t1 { root = some (store v l) })
  unfolding set_at
  set_at-stored d key t t1 l h = rw (h, set_at)

  root_of-some : (t : Tree T) (n : Node T) → t.root ≡ some n → root_of t ≡ n
  root_of-some t n e = rw (e, root_of)

  -- The pointer that an insertion returns is at the new leaf.
  new-leaf :
      (d : T) (key : Key) (n : Node T) (l : Location T)
      → Found n key l
      → get key n ≡ some d
      → is_leaf l.0 ≡ true
  new-leaf d key n l found e = elim (Found-Answer found) [
    | inl (leaf, _) ↦ leaf
    | inr (_, absent) ↦ cc (e, absent)
  ]

  new-Sets :
      (d : T) (key : Key) (t : Tree T)
      → IsTree t
      → find key t ≡ none
      → lookup key (entries t) ≡ none
      → Sets d key t
  new-Sets d key t is missing absent =
      let i = insert-lookup key d t is in
      let (n, e, found) = i.leads in
      let added : insert (key, d) t ≡ ok (i.t', i.l, true) = i.returned ∙ rw absent in
      let rest : (j : Key) → key_eq key j ≡ false → lookup j (entries i.t') ≡ lookup j (entries t) =
        λ j other. i.search j ∙ rw (absent, other) in
      let here : lookup key (entries i.t') ≡ some d = i.search key ∙ rw (absent, key_eq_refl key) in
      let (r, size, _) = root_of-lem i.t' i.is in
      let root : root_of i.t' ≡ n = root_of-some i.t' n e in
      let r' = subst IsRoot root r in
      written d key t i.t' n i.l r' e (size ∙ ap total root) found
        (new-leaf d key n i.l found (sym (root-entries i.t' n e key r') ∙ here))
        (set_at-stored d key t i.t' i.l (at_key-new d key t i.t' i.l missing added)) rest

  find-root :
      (key : Key) (t : Tree T) (n : Node T)
      → t.root ≡ some n
      → find key t
        ≡ (let (m, up) = find_node key n 0 [] in if is_leaf m then some (m, up) else none)
  unfolding find
  find-root key t n e = rw e

  find-empty : (key : Key) (t : Tree T) → t.root ≡ none → find key t ≡ none
  unfolding find
  find-empty key t e = rw e

  -- In a well-formed tree `tree[key] = v` never fails. It leaves a well-formed tree, with the right
  -- `size`, in whose entries the look-up of the key gives `v`, and that of any other key what it gave
  -- before.
  pub set_at-lookup : (d : T) (key : Key) (t : Tree T) → IsTree t → Sets d key t
  set_at-lookup d key t (no_root e size) =
      new-Sets d key t (no_root e size) (find-empty key t e) (unfold entries lookup in rw e)
  set_at-lookup d key t (rooted {n} e r size) =
      let found = find_node_lem n key r in
      elim (Found-Answer found) [
        | inl (leaf, _) ↦
            written d key t t n (find_node key n 0 []) r e size found leaf
              (set_at-stored d key t t (find_node key n 0 [])
                (at_key-found d key t (find_node key n 0 []) (find-root key t n e ∙ rw leaf)))
              (λ j _. refl)
        | inr (deep, absent) ↦
            new-Sets d key t (rooted e r size) (find-root key t n e ∙ rw deep)
              (root-entries t n e key r ∙ absent)
      ]
