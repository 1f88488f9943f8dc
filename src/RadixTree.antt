-- ===== src/RadixTree.antt =====
-- radix_tree.hpp, radix_tree_node.hpp and radix_tree_iterator.hpp of the radix tree project, for
-- keys of type `std::string`, the one that the headers specialise.
pub mod Key
pub mod Node
pub mod Search
pub mod Insert
pub mod Erase
pub mod Iterate
pub mod Order
pub mod Spec
pub mod Map
pub mod Child
pub mod Locations
pub mod Locate
pub mod Rebuild
pub mod Roots
pub mod Pointers
pub mod NewChild
pub mod Append
pub mod Leads
pub mod Prepend
pub mod Entries
pub mod Count
pub mod Lookup
pub mod Insertion
pub mod Leaves
pub mod Starting
pub mod Prefixes
pub mod Matches
pub mod Climb
pub mod Longest
pub mod Merge
pub mod Erasure
pub mod Pruning
pub mod Removal
pub mod Store
pub mod Subscript
pub mod Walk
pub mod Traversal
pub mod Ascending
pub mod Increasing
pub mod Reference
pub mod Greedy
pub mod Nearest
pub mod Runs
pub mod Inverse
pub mod Branching
pub mod Canonical
pub mod Reading
pub mod Program
pub mod Examples
pub mod Tests
