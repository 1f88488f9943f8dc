-- ===== src/RadixTree/Program.antt =====
-- RadixTreeExample.cxx: what it prints, as a list of lines; `int` is a number.
pub mod Prints
use Prim.Native.String.{String}
use Prim.Native.Char.{code}
use collection_of_mini_proje.Prelude.{ℕ, Option, none, some, List, [], ◌∷◌, ◌++◌}
use collection_of_mini_proje.RadixTree.Key.{Key}
use collection_of_mini_proje.RadixTree.Node.{
  Node, Result, ok, failed, Tree, Location, fields, new_tree,
}
use collection_of_mini_proje.RadixTree.Search.{longest_match, prefix_match, greedy_match}
use collection_of_mini_proje.RadixTree.Insert.{set_at}
use collection_of_mini_proje.RadixTree.Erase.{erase}
use collection_of_mini_proje.RadixTree.Iterate.{begin}
use collection_of_mini_proje.RadixTree.Leaves.{held}
use collection_of_mini_proje.RadixTree.Walk.{collect}

abbrev pub codes : String → Key
codes String.[] = []
codes (String.◌∷◌ c s) = code c ∷ codes s

abbrev pub words : List (String × ℕ)
words =
    ("apache", 0)
    ∷ ("afford", 1)
    ∷ ("available", 2)
    ∷ ("affair", 3)
    ∷ ("avenger", 4)
    ∷ ("binary", 5)
    ∷ ("bind", 6)
    ∷ ("brother", 7)
    ∷ ("brace", 8)
    ∷ ("blind", 9)
    ∷ ("bro", 10)
    ∷ []

-- `insert()`, for a list of assignments; a new `int` is 0.
unfoldable pub insert_all : List (String × ℕ) → Tree ℕ → Result (Tree ℕ)
insert_all [] t = ok t
insert_all ((s, v) ∷ ws) t = elim (set_at 0 (codes s) v t) [
  | failed ↦ failed
  | ok t' ↦ insert_all ws t'
]

-- A line of output: a heading with its argument, a key with its value, or `failed`.
pub data Line : Type 0 where
  longest_head : Key → Line
  prefix_head : Key → Line
  greedy_head : Key → Line
  traverse_head : Line
  entry : Key → ℕ → Line
  absent : Line

-- The lines of a loop over iterators; a null pointer is followed where there is no value.
abbrev pub entry_lines : List (Option (Key × ℕ)) → Result (List Line)
entry_lines [] = ok []
entry_lines (none ∷ vs) = failed
entry_lines (some (k, v) ∷ vs) = elim (entry_lines vs) [
  | failed ↦ failed
  | ok ls ↦ ok (entry k v ∷ ls)
]

abbrev pub headed : Line → Result (List Line) → Result (List Line)
headed l failed = failed
headed l (ok ls) = ok (l ∷ ls)

abbrev pub print_found : Option (Location ℕ) → Result (List Line)
print_found none = ok (absent ∷ [])
print_found (some l) = entry_lines ((fields l.0).value ∷ [])

unfoldable pub print_longest : Key → Tree ℕ → Result (List Line)
print_longest key t = headed (longest_head key) (print_found (longest_match key t))

abbrev pub print_vec : Result (List (Node ℕ)) → Result (List Line)
print_vec failed = failed
print_vec (ok vec) = entry_lines (held vec)

unfoldable pub print_prefix : Key → Tree ℕ → Result (List Line)
print_prefix key t = headed (prefix_head key) (print_vec (prefix_match key t))

unfoldable pub print_greedy : Key → Tree ℕ → Result (List Line)
print_greedy key t = headed (greedy_head key) (print_vec (greedy_match key t))

-- The loop of `traverse` takes one round for each entry.
unfoldable pub traverse : Tree ℕ → Result (List Line)
traverse t = elim (collect t.size (begin t)) [
  | none ↦ failed
  | some vs ↦ headed traverse_head (entry_lines vs)
]

-- Output of one call, and then that of the next.
abbrev pub then_print : Result (List Line) → Result (List Line) → Result (List Line)
then_print failed r = failed
then_print (ok ls) failed = failed
then_print (ok ls) (ok ms) = ok (ls ++ ms)

abbrev pub prints : List (Result (List Line)) → Result (List Line)
prints [] = ok []
prints (r ∷ rs) = then_print r (prints rs)

-- `main` behind its insertions.
unfoldable pub print_all : Tree ℕ → Result (List Line)
print_all t = prints (
    print_longest (codes "binder") t
    ∷ print_longest (codes "bracelet") t
    ∷ print_longest (codes "apple") t
    ∷ print_prefix (codes "aff") t
    ∷ print_prefix (codes "bi") t
    ∷ print_prefix (codes "a") t
    ∷ print_greedy (codes "avoid") t
    ∷ print_greedy (codes "bring") t
    ∷ print_greedy (codes "attack") t
    ∷ traverse t
    ∷ elim (erase (codes "bro") t) [ failed ↦ failed | ok (t', b) ↦ print_prefix (codes "bro") t' ]
    ∷ [])

unfoldable pub example_main : Result (List Line)
example_main = elim (insert_all words new_tree) [ failed ↦ failed | ok t ↦ print_all t ]
