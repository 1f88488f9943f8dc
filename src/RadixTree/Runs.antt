-- ===== src/RadixTree/Runs.antt =====
-- Any sequence of calls on a tree, against the same calls on a list of keys and values that is in
-- the order of the keys.
pub mod Refines
pub mod Outcomes
use collection_of_mini_proje.Prelude.{
  ℕ, ◌≡◌, inl, inr, refl, ap, sym, ◌∙◌, Bool, not, Option, none, some, List, [], ◌∷◌, ◌==◌,
  if◌then◌else◌, length,
}
use collection_of_mini_proje.RadixTree.Key.{Key}
use collection_of_mini_proje.RadixTree.Node.{
  Node, Location, Tree, Result, ok, failed, new_tree, empty, clear,
}
use collection_of_mini_proje.RadixTree.Search.{find, longest_match, prefix_match, greedy_match}
use collection_of_mini_proje.RadixTree.Insert.{insert, at_key, set_at}
use collection_of_mini_proje.RadixTree.Erase.{erase}
use collection_of_mini_proje.RadixTree.Iterate.{begin}
use collection_of_mini_proje.RadixTree.Spec.{entries, lookup, IsTree, no_root, rooted}
use collection_of_mini_proje.RadixTree.Insertion.{is_none, or_new, insert-lookup}
use collection_of_mini_proje.RadixTree.Leaves.{held, present}
use collection_of_mini_proje.RadixTree.Starting.{starting}
use collection_of_mini_proje.RadixTree.Walk.{collect}
use collection_of_mini_proje.RadixTree.Reading.{erase_found}
use collection_of_mini_proje.RadixTree.Reference.{put, without, add}
use collection_of_mini_proje.RadixTree.Nearest.{shown, longest_of, nearest_of}

-- The calls of a client; it walks over a tree that is not empty.
pub data Call (T : Type 0) : Type 0 where
  inserting : Key → T → Call T
  setting : Key → T → Call T
  reading : Key → Call T
  erasing : Key → Call T
  erasing_found : Key → Call T
  finding : Key → Call T
  matching_longest : Key → Call T
  matching_prefix : Key → Call T
  matching_greedy : Key → Call T
  walking : Call T
  counting : Call T
  clearing : Call T

-- What the client sees: iterators show the key and the value that they lead to.
pub data Reply (T : Type 0) : Type 0 where
  done : Reply T
  added : Option (Key × T) → Bool → Reply T
  erased : Bool → Reply T
  found : Option (Key × T) → Reply T
  listed : List (Option (Key × T)) → Reply T
  counted : ℕ → Bool → Reply T

module _ {T : Type 0} where
  abbrev pub on_insert :
      Result (Tree T × (Node T × List (Node T)) × Bool) → Result (Tree T × Reply T)
  on_insert failed = failed
  on_insert (ok (t, l, b)) = ok (t, added (shown (some l)) b)

  abbrev pub on_set : Result (Tree T) → Result (Tree T × Reply T)
  on_set failed = failed
  on_set (ok t) = ok (t, done)

  abbrev pub on_read : Result (Tree T × Location T) → Result (Tree T × Reply T)
  on_read failed = failed
  on_read (ok (t, l)) = ok (t, found (shown (some l)))

  abbrev pub on_erase : Result (Tree T × Bool) → Result (Tree T × Reply T)
  on_erase failed = failed
  on_erase (ok (t, b)) = ok (t, erased b)

  abbrev pub on_leaves : Tree T → Result (List (Node T)) → Result (Tree T × Reply T)
  on_leaves t failed = failed
  on_leaves t (ok ns) = ok (t, listed (held ns))

  abbrev pub on_walk : Tree T → Option (List (Option (Key × T))) → Result (Tree T × Reply T)
  on_walk t none = failed
  on_walk t (some vs) = ok (t, listed vs)

-- `d` is the value that a new entry gets if none is given.
module _ {T : Type 0} (d : T) where
  -- The same calls on the list.
  abbrev pub reply_of : Call T → List (Key × T) → List (Key × T) × Reply T
  reply_of (inserting k v) es =
      (add k v es, added (some (k, or_new v (lookup k es))) (is_none (lookup k es)))
  reply_of (setting k v) es = (put k v es, done)
  reply_of (reading k) es = (add k d es, found (some (k, or_new d (lookup k es))))
  reply_of (erasing k) es = (without k es, erased (not (is_none (lookup k es))))
  reply_of (erasing_found k) es = (without k es, erased (not (is_none (lookup k es))))
  reply_of (finding k) es = (es, found (elim (lookup k es) [ none ↦ none | some v ↦ some (k, v) ]))
  reply_of (matching_longest k) es = (es, found (longest_of k (length k) es))
  reply_of (matching_prefix k) es = (es, listed (present (starting k es)))
  reply_of (matching_greedy k) es = (es, listed (present (nearest_of k (length k) es)))
  reply_of walking es = (es, listed (present es))
  reply_of counting es = (es, counted (length es) (length es == 0))
  reply_of clearing es = ([], done)

  unfoldable pub replies_of : List (Call T) → List (Key × T) → List (Key × T) × List (Reply T)
  replies_of [] es = (es, [])
  replies_of (c ∷ cs) es =
      let (es1, r) = reply_of c es in let (es2, rs) = replies_of cs es1 in (es2, r ∷ rs)

  abbrev pub step : Call T → Tree T → Result (Tree T × Reply T)
  step (inserting k v) t = on_insert (insert (k, v) t)
  step (setting k v) t = on_set (set_at d k v t)
  step (reading k) t = on_read (at_key d k t)
  step (erasing k) t = on_erase (erase k t)
  step (erasing_found k) t = on_erase (erase_found k t)
  step (finding k) t = ok (t, found (shown (find k t)))
  step (matching_longest k) t = ok (t, found (shown (longest_match k t)))
  step (matching_prefix k) t = on_leaves t (prefix_match k t)
  step (matching_greedy k) t = on_leaves t (greedy_match k t)
  step walking t = let vs = collect t.size (begin t) in on_walk t (if empty t then some [] else vs)
  step counting t = ok (t, counted t.size (empty t))
  step clearing t = ok (clear t, done)

  unfoldable pub run : List (Call T) → Tree T → Result (Tree T × List (Reply T))
  run [] t = ok (t, [])
  run (c ∷ cs) t = elim (step c t) [
    | failed ↦ failed
    | ok (t1, r) ↦ elim (run cs t1) [ failed ↦ failed | ok (t2, rs) ↦ ok (t2, r ∷ rs) ]
  ]
