-- ===== src/StackAlloc/Examples.antt =====
-- StackAlloc.hpp over a memory pool with blocks of 64 bytes: a push, a pop, and a pop too many.
use collection_of_mini_proje.Prelude.{ℕ, ◌≡◌, false, List, [], ◌∷◌, ◌++◌, ◌==◌, length, arith}
use collection_of_mini_proje.MemoryPool.{Ptr, Slot, raw, Pool, init}
use collection_of_mini_proje.MemoryPool.Client.{Holds}
use collection_of_mini_proje.MemoryPool.Deallocate.{init-IsValid}
use collection_of_mini_proje.MemoryPool.Examples.{sizes, pages, sizes-IsSized, pages-IsNew}
use collection_of_mini_proje.StackAlloc.{Node, Stack, ok, new_stack}
use collection_of_mini_proje.StackAlloc.Interface.{Allocator}
use collection_of_mini_proje.StackAlloc.Chain.{Cells, IsStack, nil}
use collection_of_mini_proje.StackAlloc.Runs.{
  Call, push_of, pop_of, done, value, error, list_run, list_call, values, run, run-list_run,
}
use collection_of_mini_proje.StackAlloc.OnPool.{pool_allocator, pool-IsAllocator, pool_run-list_run}
use collection_of_mini_proje.StackAlloc.Program.{Vector}

abbrev raw_memory : Ptr → Slot (Node ℕ)
raw_memory p = raw

abbrev pool : Allocator (Node ℕ) (Pool (Node ℕ))
pool = pool_allocator sizes pages

abbrev empty_stack : Stack (Pool (Node ℕ))
empty_stack = new_stack pool (init raw_memory)

empty_stack-IsStack : IsStack pool (Holds sizes pages) empty_stack []
unfolding new_stack
empty_stack-IsStack = record {
  chain = nil;
  holds = record { xs = []; left = 0; valid = init-IsValid sizes-IsSized pages-IsNew raw_memory };
}

abbrev calls : List (Call ℕ)
calls = push_of 7 ∷ pop_of ∷ pop_of ∷ push_of 8 ∷ []

run-list_run_example :
    (st' : Stack (Pool (Node ℕ))) × (cs' : Cells ℕ) × (run pool 5 calls empty_stack
      ≡ ok (st', done ∷ value 7 ∷ error ∷ done ∷ []))
    × (values cs' ≡ 8 ∷ [])
    × IsStack pool (Holds sizes pages) st' cs'
unfolding list_run list_call
run-list_run_example =
    run-list_run (pool-IsAllocator sizes-IsSized pages-IsNew) 5 calls empty_stack []
      empty_stack-IsStack (omega arith)

pool_run-list_run_example :
    (st' : Stack (Pool (Node ℕ))) × (run pool 5 calls empty_stack
      ≡ ok (st', done ∷ value 7 ∷ error ∷ done ∷ []))
unfolding list_run list_call
pool_run-list_run_example =
    pool_run-list_run sizes-IsSized pages-IsNew raw_memory 5 calls (omega arith)

-- A vector is a list, and its `pop_back` drops the last element.
abbrev drop_last : List ℕ → List ℕ
drop_last [] = []
drop_last (x ∷ []) = []
drop_last (x ∷ y ∷ xs) = x ∷ drop_last (y ∷ xs)

abbrev list_vector : Vector (List ℕ)
list_vector = record {
  new = [];
  empty = λ v. length v == 0;
  full = λ v. false;
  push_back = λ v x. v ++ x ∷ [];
  pop_back = drop_last;
}
