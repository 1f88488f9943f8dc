-- ===== src/RadixTree/Examples.antt =====
-- The radix tree with the words `a` and `ab`, written by the codes of their bytes.
use collection_of_mini_proje.Prelude.{
  ℕ, ◌≡◌, ◌≢◌, ◌∙◌, sym, List, refl, inl, inr, true, false, Option, none, some, [], ◌∷◌, arith,
  length,
}
use collection_of_mini_proje.RadixTree.Key.{Key, char_at, key_eq, key_cmp}
use collection_of_mini_proje.RadixTree.Node.{
  Node, Tree, ok, new_node, nil, cons, new_tree, empty, find_child, assign, erase_child, attach,
  write_back, ancestors,
}
use collection_of_mini_proje.RadixTree.Search.{
  find_node, find, prefix_match, longest_match, greedy_match,
}
use collection_of_mini_proje.RadixTree.Spec.{
  IsNode, IsTree, no_root, rooted, entries, lookup, contents,
}
use collection_of_mini_proje.RadixTree.Insertion.{Inserts, insert-lookup}
use collection_of_mini_proje.RadixTree.Lookup.{Finds, find-lookup}
use collection_of_mini_proje.RadixTree.Leaves.{held, present}
use collection_of_mini_proje.RadixTree.Starting.{starting}
use collection_of_mini_proje.RadixTree.Matches.{prefix_match-starting}
use collection_of_mini_proje.RadixTree.Climb.{Longest}
use collection_of_mini_proje.RadixTree.Longest.{longest_match-lookup}
use collection_of_mini_proje.RadixTree.Removal.{Erases, erase-lookup}
use collection_of_mini_proje.RadixTree.Iterate.{begin}
use collection_of_mini_proje.RadixTree.Walk.{collect}
use collection_of_mini_proje.RadixTree.Traversal.{begin-entries}
use collection_of_mini_proje.RadixTree.Subscript.{Sets, set_at-lookup}
use collection_of_mini_proje.RadixTree.Greedy.{Nearest, greedy_match-Nearest}
use collection_of_mini_proje.RadixTree.Ascending.{Ascending}
use collection_of_mini_proje.RadixTree.Canonical.{Same}
use collection_of_mini_proje.RadixTree.Inverse.{Restores, erase-insert}
use collection_of_mini_proje.RadixTree.Reference.{put, add, without}
use collection_of_mini_proje.RadixTree.Nearest.{nearest_of, shown}
use collection_of_mini_proje.RadixTree.Runs.{
  Call, inserting, setting, matching_greedy, erasing, walking, added, done, listed, erased, run,
  Reply, replies_of,
}
use collection_of_mini_proje.RadixTree.Runs.Refines.{run-replies}
use collection_of_mini_proje.RadixTree.Runs.Outcomes.{
  entry_of, shown-lookup, run-Ascending, run-Same,
}
use collection_of_mini_proje.RadixTree.Insert.{
  insert, insert_at, append, placed, prepend, count_loop, split, cut,
}
use collection_of_mini_proje.RadixTree.Program.{codes, words, insert_all}
use collection_of_mini_proje.RadixTree.Program.Prints.{Prints, puts, insert_all-Prints}

-- The leaf of a word at its depth.
abbrev leaf : ℕ → Key → ℕ → Node ℕ
leaf d k v = new_node [] d true (some (k, v)) nil

-- The member `m_value` of the inner node can be any pair.
abbrev below_a : Option (Key × ℕ) → Node ℕ
below_a o = new_node (97 ∷ []) 0 false o (
    cons [] (leaf 1 (97 ∷ []) 5) (
      cons (98 ∷ [])
        (new_node (98 ∷ []) 1 false (some (97 ∷ 98 ∷ [], 6))
          (cons [] (leaf 2 (97 ∷ 98 ∷ []) 6) nil))
        nil))

abbrev root_over : Option (Key × ℕ) → Node ℕ
root_over o = new_node [] 0 false none (cons (97 ∷ []) (below_a o) nil)

abbrev two_words_with : Option (Key × ℕ) → Tree ℕ
two_words_with o = record { size = 2; root = some (root_over o) }

abbrev two_words : Tree ℕ
two_words = two_words_with (some (97 ∷ [], 5))

leaf-IsNode : (d : ℕ) (k : Key) (v : ℕ) → d ≡ length k → IsNode k [] (leaf d k v)
leaf-IsNode d k v e = (
  refl,
  e,
  inl (record { leaf = refl; no_key = refl; no_children = refl; v = v; holds = refl }),
  tt,
  tt,
)

two_words_with-IsTree : (o : Option (Key × ℕ)) → IsTree (two_words_with o)
unfolding contents
two_words_with-IsTree o =
    rooted refl
      (record {
        key = refl;
        depth = refl;
        internal = refl;
        sorted = (omega arith, tt);
        nodes = (
          (
            refl,
            refl,
            inr (record { internal = refl; has_key = λ e. cc; compact = inl (omega arith) }),
            (omega arith, (omega arith, tt)),
            (
              leaf-IsNode 1 (97 ∷ []) 5 refl,
              (
                (
                  refl,
                  refl,
                  inr (record { internal = refl; has_key = λ e. cc; compact = inr refl }),
                  (omega arith, tt),
                  (leaf-IsNode 2 (97 ∷ 98 ∷ []) 6 refl, tt),
                ),
                tt,
              ),
            ),
          ),
          tt,
        );
      })
      refl

two_words-IsTree : IsTree two_words
two_words-IsTree = two_words_with-IsTree (some (97 ∷ [], 5))

insert-lookup_example : Inserts (97 ∷ 99 ∷ []) 7 two_words
insert-lookup_example = insert-lookup (97 ∷ 99 ∷ []) 7 two_words two_words-IsTree

find-lookup_example : Finds (97 ∷ 98 ∷ []) (find (97 ∷ 98 ∷ []) two_words) (some 6)
unfolding entries lookup contents key_eq
find-lookup_example = find-lookup (97 ∷ 98 ∷ []) two_words two_words-IsTree

prefix_match-starting_example :
    (ns : List (Node ℕ)) × (prefix_match (97 ∷ 98 ∷ []) two_words ≡ ok ns)
    × (held ns ≡ some (97 ∷ 98 ∷ [], 6) ∷ [])
unfolding starting entries contents
prefix_match-starting_example = prefix_match-starting (97 ∷ 98 ∷ []) two_words two_words-IsTree

longest_match-lookup_example :
    Longest
      (97 ∷ 98 ∷ 99 ∷ [])
      (λ j. lookup j (entries two_words))
      (longest_match (97 ∷ 98 ∷ 99 ∷ []) two_words)
longest_match-lookup_example = longest_match-lookup (97 ∷ 98 ∷ 99 ∷ []) two_words two_words-IsTree

erase-lookup_example : Erases (97 ∷ []) two_words
erase-lookup_example = erase-lookup (97 ∷ []) two_words two_words-IsTree

two_entries : entries two_words ≢ []
unfolding entries contents
two_entries e = cc

begin-entries_example :
    collect 2 (begin two_words) ≡ some (some (97 ∷ [], 5) ∷ some (97 ∷ 98 ∷ [], 6) ∷ [])
unfolding entries contents
begin-entries_example = begin-entries two_words two_words-IsTree (inr two_entries)

set_at-lookup_example : Sets 9 0 (97 ∷ 120 ∷ []) two_words
set_at-lookup_example = set_at-lookup 9 0 (97 ∷ 120 ∷ []) two_words two_words-IsTree

greedy_match-Nearest_example :
    (ns : List (Node ℕ)) × (greedy_match (97 ∷ 98 ∷ 99 ∷ []) two_words ≡ ok ns)
    × Nearest (97 ∷ 98 ∷ 99 ∷ []) (entries two_words) ns
greedy_match-Nearest_example = greedy_match-Nearest (97 ∷ 98 ∷ 99 ∷ []) two_words two_words-IsTree

c_absent : lookup (99 ∷ []) (entries two_words) ≡ none
unfolding lookup entries contents key_eq
c_absent = refl

erase-insert_example : Restores (99 ∷ []) 7 two_words
erase-insert_example = erase-insert (99 ∷ []) 7 two_words two_words-IsTree c_absent

abbrev calls : List (Call ℕ)
calls =
    inserting (98 ∷ []) 1
    ∷ inserting (97 ∷ 98 ∷ []) 2
    ∷ setting (97 ∷ []) 3
    ∷ matching_greedy (97 ∷ 99 ∷ [])
    ∷ erasing (97 ∷ [])
    ∷ walking
    ∷ []

new-IsTree : IsTree (new_tree {T = ℕ})
unfolding new_tree
new-IsTree = no_root refl refl

-- The replies of the list, computed.
calls-replies_of :
    (replies_of 0 calls []).1
    ≡ added (some (98 ∷ [], 1)) true
      ∷ added (some (97 ∷ 98 ∷ [], 2)) true
      ∷ done
      ∷ listed (some (97 ∷ [], 3) ∷ some (97 ∷ 98 ∷ [], 2) ∷ [])
      ∷ erased true
      ∷ listed (some (97 ∷ 98 ∷ [], 2) ∷ some (98 ∷ [], 1) ∷ [])
      ∷ []
unfolding replies_of put add without lookup key_cmp key_eq nearest_of starting
calls-replies_of = refl

run-replies_example :
    (t : Tree ℕ) × (run 0 calls new_tree ≡ ok (t, (replies_of 0 calls (entries new_tree)).1))
    × IsTree t
    × (entries t ≡ (replies_of 0 calls (entries new_tree)).0)
run-replies_example = run-replies 0 calls new_tree new-IsTree

insert_all-Prints_example :
    (t : Tree ℕ) × (insert_all words new_tree ≡ ok t) × Prints (codes "bring") (puts words []) t
insert_all-Prints_example = insert_all-Prints words (codes "bring")

abbrev a_first : List (Call ℕ)
a_first = inserting (97 ∷ []) 5 ∷ inserting (97 ∷ 98 ∷ []) 6 ∷ []

abbrev ab_first : List (Call ℕ)
ab_first = inserting (97 ∷ 98 ∷ []) 6 ∷ inserting (97 ∷ []) 5 ∷ []

abbrev replies_a : List (Reply ℕ)
replies_a = added (some (97 ∷ [], 5)) true ∷ added (some (97 ∷ 98 ∷ [], 6)) true ∷ []

abbrev replies_ab : List (Reply ℕ)
replies_ab = added (some (97 ∷ 98 ∷ [], 6)) true ∷ added (some (97 ∷ [], 5)) true ∷ []

a_first-run : run 0 a_first new_tree ≡ ok (two_words, replies_a)
unfolding run new_tree insert find_node find_child char_at key_eq insert_at append placed attach
    assign key_cmp write_back ancestors prepend count_loop split cut erase_child
a_first-run = refl

-- After the other order of insertions the inner node has another `m_value`.
abbrev words_ab : Tree ℕ
words_ab = two_words_with none

ab_first-run : run 0 ab_first new_tree ≡ ok (words_ab, replies_ab)
unfolding run new_tree insert find_node find_child char_at key_eq insert_at append placed attach
    assign key_cmp write_back ancestors prepend count_loop split cut erase_child
ab_first-run = refl

words_ab-finds : (k : Key) → shown (find k two_words) ≡ shown (find k words_ab)
unfolding entries contents
words_ab-finds k =
    shown-lookup k two_words two_words-IsTree
    ∙ sym (shown-lookup k words_ab (two_words_with-IsTree none))

run-Ascending_example :
    (es : List (Key × ℕ)) × (collect 2 (begin two_words) ≡ some (present es))
    × Ascending es
    × ((k : Key) → shown (find k two_words) ≡ entry_of k (lookup k es))
unfolding empty
run-Ascending_example = run-Ascending 0 a_first two_words replies_a a_first-run refl

run-Same_example : Same (root_over (some (97 ∷ [], 5))) (root_over none)
run-Same_example =
    run-Same 0 a_first ab_first two_words words_ab replies_a replies_ab
      (root_over (some (97 ∷ [], 5))) (root_over none) a_first-run ab_first-run refl refl
      words_ab-finds
