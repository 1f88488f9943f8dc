-- ===== src/RadixTree/Program/Prints.antt =====
-- What RadixTreeExample.cxx prints, for any words and any arguments.
use Prim.Native.String.{String}
use collection_of_mini_proje.Prelude.{
  ℕ, ◌≡◌, ◌≢◌, inr, refl, ap, sym, subst, ◌∙◌, none, some, Option, List, [], ◌∷◌, length,
}
use collection_of_mini_proje.RadixTree.Key.{Key}
use collection_of_mini_proje.RadixTree.Node.{Tree, Location, ok, new_tree}
use collection_of_mini_proje.RadixTree.Search.{longest_match}
use collection_of_mini_proje.RadixTree.Spec.{entries, lookup, IsTree, no_root}
use collection_of_mini_proje.RadixTree.Subscript.{set_at-lookup}
use collection_of_mini_proje.RadixTree.Climb.{Longest}
use collection_of_mini_proje.RadixTree.Longest.{longest_match-lookup}
use collection_of_mini_proje.RadixTree.Matches.{prefix_match-starting}
use collection_of_mini_proje.RadixTree.Greedy.{greedy_match-Nearest}
use collection_of_mini_proje.RadixTree.Starting.{starting}
use collection_of_mini_proje.RadixTree.Leaves.{present}
use collection_of_mini_proje.RadixTree.Traversal.{begin-entries}
use collection_of_mini_proje.RadixTree.Iterate.{begin}
use collection_of_mini_proje.RadixTree.Walk.{collect}
use collection_of_mini_proje.RadixTree.Reference.{put, lookup-put, Ascending-put}
use collection_of_mini_proje.RadixTree.Increasing.{entries-Ascending, entries-is, size-entries}
use collection_of_mini_proje.RadixTree.Nearest.{longest_of, nearest_of, Longest-of, Nearest-of}
use collection_of_mini_proje.RadixTree.Program.{
  codes, insert_all, Line, longest_head, prefix_head, greedy_head, traverse_head, entry, absent,
  entry_lines, headed, print_found, print_longest, print_vec, print_prefix, print_greedy, traverse,
}

-- One line for each entry.
abbrev pub lines : List (Key × ℕ) → List Line
lines [] = []
lines ((k, v) ∷ es) = entry k v ∷ lines es

abbrev pub found_lines : Option (Key × ℕ) → List Line
found_lines none = absent ∷ []
found_lines (some (k, v)) = entry k v ∷ []

-- The words in the order of their keys, each with its last value.
abbrev pub puts : List (String × ℕ) → List (Key × ℕ) → List (Key × ℕ)
puts [] es = es
puts ((s, v) ∷ ws) es = puts ws (put (codes s) v es)

entry_lines-present : (es : List (Key × ℕ)) → entry_lines (present es) ≡ ok (lines es)
entry_lines-present [] = refl
entry_lines-present ((k, v) ∷ es) = rw (entry_lines-present es)

insert_all-puts :
    (ws : List (String × ℕ)) (t : Tree ℕ)
    → IsTree t
    → (t' : Tree ℕ) × (insert_all ws t ≡ ok t') × IsTree t' × (entries t' ≡ puts ws (entries t))
unfolding insert_all
insert_all-puts [] t is = (t, refl, is, refl)
insert_all-puts ((s, v) ∷ ws) t is =
    let r = set_at-lookup v 0 (codes s) t is in
    let same =
      entries-is r.t' (put (codes s) v (entries t)) r.is
        (Ascending-put (codes s) v (entries t) (entries-Ascending t is))
        (λ j. r.search j ∙ sym (lookup-put (codes s) v (entries t) j)) in
    let (t', e, is', all) = insert_all-puts ws r.t' r.is in
    (t', rw (r.returned, insert_all) e, is', all ∙ ap (puts ws) same)

print_found-Longest :
    (key : Key) (es : List (Key × ℕ)) (o : Option (Location ℕ))
    → Longest key (λ j. lookup j es) o
    → print_found o ≡ ok (found_lines (longest_of key (length key) es))
print_found-Longest key es none h = ap (λ x. ok (found_lines x)) (Longest-of key es none h)
print_found-Longest key es (some l) h =
    let (j, v, holds, _, _, _) = h in
    ap (λ x. entry_lines (x ∷ [])) holds
    ∙ ap (λ x. ok (found_lines x)) (sym holds ∙ Longest-of key es (some l) h)

-- What the four functions of the program print for a tree.
pub record Prints (key : Key) (es : List (Key × ℕ)) (t : Tree ℕ) : Type 0 where
  pub longest :
      print_longest key t ≡ ok (longest_head key ∷ found_lines (longest_of key (length key) es))
  pub starts : print_prefix key t ≡ ok (prefix_head key ∷ lines (starting key es))
  pub nearest : print_greedy key t ≡ ok (greedy_head key ∷ lines (nearest_of key (length key) es))
  pub all : es ≢ [] → traverse t ≡ ok (traverse_head ∷ lines es)

IsTree-Prints : (key : Key) (t : Tree ℕ) → IsTree t → Prints key (entries t) t
unfolding print_longest print_prefix print_greedy traverse
IsTree-Prints key t is =
    let es = entries t in
    let (ns, e, h) = prefix_match-starting key t is in
    let (ms, e', h') = greedy_match-Nearest key t is in
    record {
      longest =
          ap (headed (longest_head key))
            (print_found-Longest key es (longest_match key t) (longest_match-lookup key t is));
      starts =
          ap (λ x. headed (prefix_head key) (print_vec x)) e
          ∙ ap (λ x. headed (prefix_head key) (entry_lines x)) h
          ∙ ap (headed (prefix_head key)) (entry_lines-present (starting key es));
      nearest =
          ap (λ x. headed (greedy_head key) (print_vec x)) e'
          ∙ ap (λ x. headed (greedy_head key) (entry_lines x)) (Nearest-of key es ms h')
          ∙ ap (headed (greedy_head key)) (entry_lines-present (nearest_of key (length key) es));
      all = λ ne.
          let walked : collect t.size (begin t) ≡ some (present es) =
            ap (λ n. collect n (begin t)) (size-entries t is) ∙ begin-entries t is (inr ne) in
          rw (walked, traverse) (ap (headed traverse_head) (entry_lines-present es));
    }

-- For any words and any argument: `insert` of the program, from the empty tree, does not fail, and
-- in the tree that it leaves `longest_match`, `prefix_match` and `greedy_match` print their heading
-- and then the answer for the list of the words in the order of their keys, each with its last
-- value; `traverse` prints that whole list, if there is a word.
pub insert_all-Prints :
    (ws : List (String × ℕ)) (key : Key)
    → (t : Tree ℕ) × (insert_all ws new_tree ≡ ok t) × Prints key (puts ws []) t
unfolding new_tree entries
insert_all-Prints ws key =
    let (t, e, is, same) = insert_all-puts ws new_tree (no_root refl refl) in
    (t, e, subst (λ es. Prints key es t) same (IsTree-Prints key t is))
