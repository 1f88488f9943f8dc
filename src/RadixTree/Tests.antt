-- ===== src/RadixTree/Tests.antt =====
-- The program of RadixTreeExample.cxx, run on the model.
use collection_of_mini_proje.Prelude.{ℕ, ◌≡◌, refl, List, [], ◌∷◌}
use collection_of_mini_proje.RadixTree.Key.{char_at, key_eq, key_cmp}
use collection_of_mini_proje.RadixTree.Node.{
  Result, ok, failed, Tree, new_tree, find_child, assign, erase_child, attach, write_back,
  ancestors,
}
use collection_of_mini_proje.RadixTree.Search.{
  find_node, find, climb, longest_match, greedy, internal, prefix_match, greedy_match,
}
use collection_of_mini_proje.RadixTree.Insert.{
  placed, append, count_loop, split, cut, prepend, insert_at, insert, at_key, store, set_at,
}
use collection_of_mini_proje.RadixTree.Erase.{merge, shrink, prune, erase}
use collection_of_mini_proje.RadixTree.Iterate.{descend, from_child, increment, begin, advance}
use collection_of_mini_proje.RadixTree.Walk.{collect}
use collection_of_mini_proje.RadixTree.Program.{
  codes, words, insert_all, Line, longest_head, prefix_head, greedy_head, traverse_head, entry,
  absent, print_longest, print_prefix, print_greedy, traverse, print_all, example_main,
}

example : Result (Tree ℕ)
unfolding insert_all new_tree set_at at_key find find_node char_at key_eq insert insert_at append
    placed attach assign key_cmp write_back ancestors prepend count_loop split cut erase_child store
example = insert_all words new_tree

-- What the program prints.
output : Result (List Line)
unfolding example print_all print_longest print_prefix print_greedy traverse longest_match find_node
    char_at key_eq climb find_child key_cmp prefix_match greedy_match internal greedy collect begin
    descend from_child increment advance erase prune shrink merge erase_child assign write_back
    attach
output = elim example [ failed ↦ failed | ok t ↦ print_all t ]

example_main-output : example_main ≡ output
unfolding example_main output example
example_main-output = refl

example_main_lem :
    output
    ≡ ok (
        longest_head (codes "binder")
        ∷ entry (codes "bind") 6
        ∷ longest_head (codes "bracelet")
        ∷ entry (codes "brace") 8
        ∷ longest_head (codes "apple")
        ∷ absent
        ∷ prefix_head (codes "aff")
        ∷ entry (codes "affair") 3
        ∷ entry (codes "afford") 1
        ∷ prefix_head (codes "bi")
        ∷ entry (codes "binary") 5
        ∷ entry (codes "bind") 6
        ∷ prefix_head (codes "a")
        ∷ entry (codes "affair") 3
        ∷ entry (codes "afford") 1
        ∷ entry (codes "apache") 0
        ∷ entry (codes "available") 2
        ∷ entry (codes "avenger") 4
        ∷ greedy_head (codes "avoid")
        ∷ entry (codes "available") 2
        ∷ entry (codes "avenger") 4
        ∷ greedy_head (codes "bring")
        ∷ entry (codes "brace") 8
        ∷ entry (codes "bro") 10
        ∷ entry (codes "brother") 7
        ∷ greedy_head (codes "attack")
        ∷ entry (codes "affair") 3
        ∷ entry (codes "afford") 1
        ∷ entry (codes "apache") 0
        ∷ entry (codes "available") 2
        ∷ entry (codes "avenger") 4
        ∷ traverse_head
        ∷ entry (codes "affair") 3
        ∷ entry (codes "afford") 1
        ∷ entry (codes "apache") 0
        ∷ entry (codes "available") 2
        ∷ entry (codes "avenger") 4
        ∷ entry (codes "binary") 5
        ∷ entry (codes "bind") 6
        ∷ entry (codes "blind") 9
        ∷ entry (codes "brace") 8
        ∷ entry (codes "bro") 10
        ∷ entry (codes "brother") 7
        ∷ prefix_head (codes "bro")
        ∷ entry (codes "brother") 7
        ∷ [])
unfolding output
example_main_lem = refl
