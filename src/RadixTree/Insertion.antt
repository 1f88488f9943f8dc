-- ===== src/RadixTree/Insertion.antt =====
-- `insert` against the list of entries.
use collection_of_mini_proje.Prelude.{
  ℕ, ◌+◌, ◌≡◌, inl, inr, refl, ap, sym, subst, ◌∙◌, Bool, true, false, ◌&&◌, Option, none, some,
  List, ◌∷◌, ◌++◌, length, take, drop, arith, if◌then◌else◌, append_assoc,
}
use collection_of_mini_proje.RadixTree.Key.{Key, key_eq}
use collection_of_mini_proje.RadixTree.Order.{prefix, drop-append, prefix-append, prefix-take}
use collection_of_mini_proje.RadixTree.Node.{Node, Tree, Location, ok, is_leaf, fields}
use collection_of_mini_proje.RadixTree.Insert.{
  insert, insert_at, append, prepend, new_root, root_of,
}
use collection_of_mini_proje.RadixTree.Spec.{
  get, contents, entries, lookup, IsNode, IsRoot, IsTree, no_root, rooted,
}
use collection_of_mini_proje.RadixTree.Count.{total}
use collection_of_mini_proje.RadixTree.Locate.{find_node_lem}
use collection_of_mini_proje.RadixTree.Locations.{IsLoc, top, below, Found, at_leaf, stuck, partial}
use collection_of_mini_proje.RadixTree.Rebuild.{Child-of, IsNode-key}
use collection_of_mini_proje.RadixTree.Append.{Inserted, append-Inserted, append-value}
use collection_of_mini_proje.RadixTree.Leads.{append-Found}
use collection_of_mini_proje.RadixTree.Prepend.Adds.{prepend-Prepended, IsNode-depth}
use collection_of_mini_proje.RadixTree.Entries.{root-lookup}
use collection_of_mini_proje.RadixTree.Lookup.{Answer, Found-Answer}

module _ {T : Type 0} where
  abbrev pub is_none : Option T → Bool
  is_none none = true
  is_none (some v) = false

  abbrev pub or_new : T → Option T → T
  or_new v none = v
  or_new v (some w) = w

  -- What `insert_at` returns, by the search in the old root.
  record Grows (size : ℕ) (root : Node T) (key : Key) (v : T) (l : Location T) : Type 0 where
    root' : Node T
    l' : Location T
    size' : ℕ
    returned :
        insert_at size root l (key, v)
        ≡ ok (record { size = size'; root = some root' }, l', is_none (get key root))
    is : IsRoot root'
    points : (fields l'.0).value ≡ some (key, or_new v (get key root))
    leads : Found root' key l'
    search :
        (j : Key)
        → get j root' ≡ (if is_none (get key root) && key_eq key j then some v else get j root)
    counted : size ≡ total root → size' ≡ total root'

  Grows-new :
      {size : ℕ} {root : Node T} {key : Key} {v : T} {l : Location T} (res : Node T × Location T)
      → get key root ≡ none
      → insert_at size root l (key, v)
        ≡ ok (record { size = size + 1; root = some res.0 }, res.1, true)
      → Inserted root key v res.0
      → (fields res.1.0).value ≡ some (key, v)
      → Found res.0 key res.1
      → Grows size root key v l
  Grows-new {size} res absent e ins value leads = record {
    leads = leads;
    root' = res.0;
    l' = res.1;
    size' = size + 1;
    returned = rw absent e;
    is = ins.is;
    points = rw absent value;
    search = λ j. rw absent (ins.search j);
    counted = λ h. omega (arith, ins.one_more);
  }

  key_sub-prefix :
      (q k rest : Key) (n : Node T)
      → IsNode q k n
      → key_eq (take (length (fields n).key) (drop (fields n).depth (q ++ rest))) (fields n).key
        ≡ prefix k rest
  key_sub-prefix q k rest n is =
      rw (IsNode-depth q k n is, IsNode-key q k n is, drop-append q rest) (prefix-take k rest)

  -- The call of `append`.
  insert_at-append :
      {root n : Node T} {q : Key} {up : List (Node T)} (size : ℕ) (rest : Key) (v : T)
      → IsLoc root q n up
      → is_leaf n ≡ false
      → insert_at size root (n, up) (q ++ rest, v) ≡ (
          let res = append (n, up) (q ++ rest, v) in
          ok (record { size = size + 1; root = some res.0 }, res.1, true))
  unfolding insert_at
  insert_at-append size rest v (top e) h = rw h
  insert_at-append {n} size rest v (below {q} k loc inner found e) h =
      let same : key_eq (take (length (fields n).key) (drop (fields n).depth (q ++ (k ++ rest))))
            (fields n).key
          ≡ true =
        key_sub-prefix q k (k ++ rest) n (Child-of inner found).is ∙ prefix-append k rest in
      rw (h, e, append_assoc q k rest, same)

  -- The call of `prepend`.
  insert_at-prepend :
      (root c parent : Node T) (up : List (Node T)) (size : ℕ) (q k rest : Key) (v : T)
      → (res : Node T × Location T) → IsNode q k c
      → is_leaf c ≡ false
      → prefix k rest ≡ false
      → prepend (c, parent ∷ up) (q ++ rest, v) ≡ ok res
      → insert_at size root (c, parent ∷ up) (q ++ rest, v)
        ≡ ok (record { size = size + 1; root = some res.0 }, res.1, true)
  unfolding insert_at
  insert_at-prepend root c parent up size q k rest v res is deep part e =
      rw (deep, key_sub-prefix q k rest c is, part, e)

  insert_at-Grows :
      {root : Node T} {key : Key} {l : Location T} (size : ℕ) (v : T)
      → Found root key l
      → Answer root key l
      → IsRoot root
      → Grows size root key v l
  insert_at-Grows {root} {key} {l} size v (at_leaf q loc inner found e leaf)
        (inl (_, (w, holds, known))) r =
      record {
        root' = root;
        l' = l;
        size' = size;
        returned = unfold insert_at in rw (leaf, known);
        is = r;
        points = rw known holds;
        leads = at_leaf q loc inner found e leaf;
        search = λ j. rw known;
        counted = λ h. h;
      }
  insert_at-Grows size v (at_leaf q loc inner found e leaf) (inr (deep, _)) r = cc (leaf, deep)
  insert_at-Grows size v (stuck q rest loc inner e free) (inl (leaf, _)) r =
      cc (leaf, inner.internal)
  insert_at-Grows {root} {key} {l} size v (stuck {n} {up} q rest loc inner e free) (inr (_, absent))
        r =
      subst (λ x. get x root ≡ none → Grows size root x v (n, up)) (sym e)
        (λ h.
          Grows-new (append (n, up) (q ++ rest, v)) h
            (insert_at-append size rest v loc inner.internal)
            (append-Inserted rest v r loc inner free) (append-value (n, up) (q ++ rest, v))
            (append-Found rest v r loc inner free))
        absent
  insert_at-Grows size v (partial q k rest loc inner found deep e same part) (inl (leaf, _)) r =
      cc (leaf, deep)
  insert_at-Grows {root} {key} {l} size v
        (partial {c} {parent} {up} q k rest loc inner found deep e same part) (inr (_, absent)) r =
      let p = prepend-Prepended k rest v r loc inner found deep same part in
      subst (λ x. get x root ≡ none → Grows size root x v (c, parent ∷ up)) (sym e)
        (λ h.
          Grows-new p.result h
            (insert_at-prepend root c parent up size q k rest v p.result (Child-of inner found).is
              deep part p.returned)
            p.inserted p.points p.leads)
        absent

  IsRoot-new_root : IsRoot (new_root {T = T})
  IsRoot-new_root = record { key = refl; depth = refl; internal = refl; sorted = tt; nodes = tt }

  -- The root that `insert` starts from.
  pub root_of-lem :
      (t : Tree T)
      → IsTree t
      → IsRoot (root_of t) × (t.size ≡ total (root_of t)) × (entries t ≡ contents (root_of t))
  unfolding entries contents
  root_of-lem t (no_root e h) = rw (e, h) (IsRoot-new_root, refl, refl)
  root_of-lem t (rooted e r h) = rw e (r, h, refl)

  -- `insert` returns the tree `t'`, a pointer `l` and whether the entry is new.
  pub record Inserts (key : Key) (v : T) (t : Tree T) : Type 0 where
    pub t' : Tree T
    pub l : Location T
    pub returned : insert (key, v) t ≡ ok (t', l, is_none (lookup key (entries t)))
    pub is : IsTree t'
    pub points : (fields l.0).value ≡ some (key, or_new v (lookup key (entries t)))
    pub leads : (r : Node T) × (t'.root ≡ some r) × Found r key l
    pub search :
        (j : Key)
        → lookup j (entries t') ≡ (
            if is_none (lookup key (entries t)) && key_eq key j
            then some v
            else lookup j (entries t))

  -- In a well-formed tree `insert` never fails. It returns a well-formed tree, with the right
  -- `size`, and `true` just if the key had no entry. The look-up of any key in the new entries
  -- gives the new value if the key is the new one and had no entry, and else what it gave before.
  -- The iterator stands in the new tree, at the key and the value that the tree now has for it.
  pub insert-lookup : (key : Key) (v : T) (t : Tree T) → IsTree t → Inserts key v t
  insert-lookup key v t is =
      let (r, size, same) = root_of-lem t is in
      let root = root_of t in
      let found = find_node_lem root key r in
      let g = insert_at-Grows t.size v found (Found-Answer found) r in
      let known : (j : Key) → lookup j (entries t) ≡ get j root =
        λ j. ap (lookup j) same ∙ sym (root-lookup root r j) in
      record {
        t' = record { size = g.size'; root = some g.root' };
        l = g.l';
        returned = unfold insert in rw (known key) g.returned;
        is = rooted refl g.is (g.counted size);
        points = rw (known key) g.points;
        leads = (g.root', refl, g.leads);
        search = λ j.
            rw (known key, known j)
              (unfold entries in sym (root-lookup g.root' g.is j) ∙ g.search j);
      }
