-- ===== src/RadixTree/Runs/Refines.antt =====
-- Every run of calls on a tree gives the replies and the entries of the same calls on the list.
use collection_of_mini_proje.Prelude.{
  ◌≡◌, ◌≢◌, inl, inr, refl, ap, sym, ◌∙◌, true, false, ◌&&◌, Option, none, some, List, [], ◌∷◌,
  ◌==◌, if◌then◌else◌, arith, length, Bool-cases,
}
use collection_of_mini_proje.RadixTree.Key.{Key, key_eq}
use collection_of_mini_proje.RadixTree.Node.{Tree, ok, Location, new_tree, empty, clear}
use collection_of_mini_proje.RadixTree.Search.{find, longest_match}
use collection_of_mini_proje.RadixTree.Iterate.{begin}
use collection_of_mini_proje.RadixTree.Spec.{entries, lookup, IsTree, no_root}
use collection_of_mini_proje.RadixTree.Insertion.{is_none, insert-lookup}
use collection_of_mini_proje.RadixTree.Subscript.{set_at-lookup}
use collection_of_mini_proje.RadixTree.Removal.{erase-lookup}
use collection_of_mini_proje.RadixTree.Reading.{at_key-lookup, erase_found-lookup}
use collection_of_mini_proje.RadixTree.Lookup.{Finds, find-lookup}
use collection_of_mini_proje.RadixTree.Longest.{longest_match-lookup}
use collection_of_mini_proje.RadixTree.Matches.{prefix_match-starting}
use collection_of_mini_proje.RadixTree.Greedy.{greedy_match-Nearest}
use collection_of_mini_proje.RadixTree.Traversal.{begin-entries}
use collection_of_mini_proje.RadixTree.Leaves.{present}
use collection_of_mini_proje.RadixTree.Walk.{collect}
use collection_of_mini_proje.RadixTree.Ascending.{Ascending}
use collection_of_mini_proje.RadixTree.Increasing.{entries-Ascending, entries-is, size-entries}
use collection_of_mini_proje.RadixTree.Reference.{
  put, without, add, lookup-put, lookup-without, Ascending-put, Ascending-without,
}
use collection_of_mini_proje.RadixTree.Nearest.{shown, Longest-of, Nearest-of}
use collection_of_mini_proje.RadixTree.Runs.{
  Call, inserting, setting, reading, erasing, erasing_found, finding, matching_longest,
  matching_prefix, matching_greedy, walking, counting, clearing, Reply, found, listed, counted,
  step, reply_of, run, replies_of, on_insert, on_set, on_read, on_erase, on_leaves,
}

module _ {T : Type 0} where
  Ascending-add : (k : Key) (v : T) (es : List (Key × T)) → Ascending es → Ascending (add k v es)
  unfolding add
  Ascending-add k v es a = elim (Bool-cases (is_none (lookup k es))) [
    | inl new ↦ rw new (Ascending-put k v es a)
    | inr old ↦ rw old a
  ]

  lookup-add :
      (k : Key) (v : T) (es : List (Key × T)) (j : Key)
      → lookup j (add k v es)
        ≡ (if is_none (lookup k es) && key_eq k j then some v else lookup j es)
  unfolding add
  lookup-add k v es j = elim (Bool-cases (is_none (lookup k es))) [
    | inl new ↦ rw new (lookup-put k v es j)
    | inr old ↦ rw old
  ]

  erased_same :
      (k : Key) (t t' : Tree T)
      → IsTree t
      → IsTree t'
      → ((j : Key) → lookup j (entries t') ≡ (if key_eq k j then none else lookup j (entries t)))
      → entries t' ≡ without k (entries t)
  erased_same k t t' is is' search =
      entries-is t' (without k (entries t)) is'
        (Ascending-without k (entries t) (entries-Ascending t is))
        (λ j. search j ∙ sym (lookup-without k (entries t) j))

  pub shown-Finds :
      (key : Key) (o : Option (Location T)) (x : Option T)
      → Finds key o x
      → shown o ≡ elim x [ none ↦ none | some v ↦ some (key, v) ]
  shown-Finds key o none h = ap shown h
  shown-Finds key o (some v) (l, e, holds) = ap shown e ∙ holds

  module _ (d : T) where
    -- A call returns a tree and the reply of the list, and its entries are the list's.
    record Refines (c : Call T) (t : Tree T) : Type 0 where
      t' : Tree T
      returned : step d c t ≡ ok (t', (reply_of d c (entries t)).1)
      is : IsTree t'
      same : entries t' ≡ (reply_of d c (entries t)).0

    reads :
        (c : Call T) (t : Tree T)
        → IsTree t
        → step d c t ≡ ok (t, (reply_of d c (entries t)).1)
        → (reply_of d c (entries t)).0 ≡ entries t
        → Refines c t
    reads c t is e same = record { t' = t; returned = e; is = is; same = sym same }

    walk_empty : (t : Tree T) → empty t ≡ true → step d walking t ≡ ok (t, listed [])
    walk_empty t h = rw h

    walk_all :
        (t : Tree T) (vs : List (Option (Key × T)))
        → empty t ≡ false
        → collect t.size (begin t) ≡ some vs
        → step d walking t ≡ ok (t, listed vs)
    walk_all t vs h e = rw (h, e)

    pub not_empty : (es : List (Key × T)) → (length es == 0) ≡ false → es ≢ []
    not_empty [] h e = cc
    not_empty (x ∷ es) h e = cc

    all_gone : (es : List (Key × T)) → (length es == 0) ≡ true → es ≡ []
    all_gone [] h = refl
    all_gone (x ∷ es) h = absurd (ground arith)

    walk-listed : (t : Tree T) → IsTree t → step d walking t ≡ ok (t, listed (present (entries t)))
    unfolding empty
    walk-listed t is =
        let size = size-entries t is in
        elim (Bool-cases (t.size == 0)) [
          | inl none_left ↦
              let gone = all_gone (entries t) (ap (λ n. n == 0) (sym size) ∙ none_left) in
              walk_empty t none_left ∙ rw gone
          | inr some_left ↦
              let ne = not_empty (entries t) (ap (λ n. n == 0) (sym size) ∙ some_left) in
              walk_all t (present (entries t)) some_left
                (ap (λ n. collect n (begin t)) size ∙ begin-entries t is (inr ne))
        ]

    step-Refines : (c : Call T) (t : Tree T) → IsTree t → Refines c t
    unfolding empty clear entries
    step-Refines (inserting k v) t is =
        let i = insert-lookup k v t is in
        record {
          t' = i.t';
          returned = ap on_insert i.returned ∙ rw (i.points);
          is = i.is;
          same =
              entries-is i.t' (add k v (entries t)) i.is
                (Ascending-add k v (entries t) (entries-Ascending t is))
                (λ j. i.search j ∙ sym (lookup-add k v (entries t) j));
        }
    step-Refines (setting k v) t is =
        let s = set_at-lookup v d k t is in
        record {
          t' = s.t';
          returned = ap (on_set) s.returned;
          is = s.is;
          same =
              entries-is s.t' (put k v (entries t)) s.is
                (Ascending-put k v (entries t) (entries-Ascending t is))
                (λ j. s.search j ∙ sym (lookup-put k v (entries t) j));
        }
    step-Refines (reading k) t is =
        let r = at_key-lookup d k t is in
        record {
          t' = r.t';
          returned = ap on_read r.returned ∙ rw (r.value);
          is = r.is;
          same =
              entries-is r.t' (add k d (entries t)) r.is
                (Ascending-add k d (entries t) (entries-Ascending t is))
                (λ j. r.search j ∙ sym (lookup-add k d (entries t) j));
        }
    step-Refines (erasing_found k) t is =
        let e = erase_found-lookup k t is in
        record {
          t' = e.t';
          returned = ap on_erase e.returned;
          is = e.is;
          same = erased_same k t e.t' is e.is e.search;
        }
    step-Refines (erasing k) t is =
        let e = erase-lookup k t is in
        record {
          t' = e.t';
          returned = ap (on_erase) e.returned;
          is = e.is;
          same = erased_same k t e.t' is e.is e.search;
        }
    step-Refines (finding k) t is =
        reads (finding k) t is
          (ap (λ x. ok (t, found x))
            (shown-Finds k (find k t) (lookup k (entries t)) (find-lookup k t is)))
          refl
    step-Refines (matching_longest k) t is =
        reads (matching_longest k) t is
          (ap (λ x. ok (t, found x))
            (Longest-of k (entries t) (longest_match k t) (longest_match-lookup k t is)))
          refl
    step-Refines (matching_prefix k) t is =
        let (ns, e, h) = prefix_match-starting k t is in
        reads (matching_prefix k) t is (ap (on_leaves t) e ∙ ap (λ x. ok (t, listed x)) h) refl
    step-Refines (matching_greedy k) t is =
        let (ns, e, h) = greedy_match-Nearest k t is in
        reads (matching_greedy k) t is
          (ap (on_leaves t) e ∙ ap (λ x. ok (t, listed x)) (Nearest-of k (entries t) ns h)) refl
    step-Refines walking t is = reads walking t is (walk-listed t is) refl
    step-Refines counting t is =
        reads counting t is (ap (λ n. ok (t, counted n (n == 0))) (size-entries t is)) refl
    step-Refines clearing t is = record {
      t' = clear t;
      returned = refl;
      is = no_root refl refl;
      same = refl;
    }

  run_cons :
      (d : T) (c : Call T) (cs : List (Call T)) (t t1 t2 : Tree T) (r : Reply T)
      (rs : List (Reply T))
      → step d c t ≡ ok (t1, r)
      → run d cs t1 ≡ ok (t2, rs)
      → run d (c ∷ cs) t ≡ ok (t2, r ∷ rs)
  unfolding run
  run_cons d c cs t t1 t2 r rs h h' = rw (h, run) (rw (h', run))

  -- Any sequence of calls on a well-formed tree, such as the new one, never fails. Its replies are
  -- those of the same calls on the list of its entries, and it leaves a well-formed tree with the
  -- entries that they leave. A walk by the iterator is taken only if the tree is not empty.
  pub run-replies :
      (d : T) (cs : List (Call T)) (t : Tree T)
      → IsTree t
      → (t' : Tree T) × (run d cs t ≡ ok (t', (replies_of d cs (entries t)).1))
        × IsTree t'
        × (entries t' ≡ (replies_of d cs (entries t)).0)
  unfolding run replies_of
  run-replies d [] t is = (t, refl, is, refl)
  run-replies d (c ∷ cs) t is =
      let s = step-Refines d c t is in
      let (t', e, is', same) = run-replies d cs s.t' s.is in
      (
        t',
        run_cons d c cs t s.t' t' (reply_of d c (entries t)).1 (replies_of d cs (entries s.t')).1
              s.returned e
            ∙ ap (λ es. ok (t', (reply_of d c (entries t)).1 ∷ (replies_of d cs es).1)) s.same,
        is',
        same ∙ ap (λ es. (replies_of d cs es).0) s.same,
      )

  pub new_tree-IsTree : IsTree (new_tree {T = T})
  unfolding new_tree
  new_tree-IsTree = no_root refl refl

  new_tree-entries : entries (new_tree {T = T}) ≡ []
  unfolding new_tree entries
  new_tree-entries = refl
