-- ===== src/StackAlloc/Program.antt =====
-- `main` of main.cxx: the rounds over `std::allocator`, over the memory pool and over `std::vector`.
-- The first and the last are not in the repository: they are parameters, with what they promise.
pub mod Ends
pub mod Vectors
use collection_of_mini_proje.Prelude.{
  ℕ, zero, suc, ◌+◌, ◌-◌, ◌/◌, ◌≡◌, ◌&&◌, Bool, Option, none, some, List, [], ◌∷◌, ◌++◌, leb,
  length, ◌==◌, if◌then◌else◌,
}
use collection_of_mini_proje.MemoryPool.{Ptr, null, Sizes, Slot, Pool, init, release}
use collection_of_mini_proje.StackAlloc.{
  Node, Stack, Outcome, ok, bad_alloc, fault, ◌>>=◌, new_stack, clear,
}
use collection_of_mini_proje.StackAlloc.Interface.{Allocator}
use collection_of_mini_proje.StackAlloc.Benchmark.{rounds}
use collection_of_mini_proje.StackAlloc.OnPool.{pool_allocator}

-- The calls of `std::vector<int>`. A call of `pop_back` on an empty vector has no meaning; `full`
-- tells whether `push_back` gets no memory, and throws.
pub record Vector (V : Type 0) : Type 0 where
  pub new : V
  pub empty : V → Bool
  pub full : V → Bool
  pub push_back : V → ℕ → V
  pub pop_back : V → V

-- `items` are the elements, the first one first.
pub record IsVector {V : Type 0} (vec : Vector V) (items : V → List ℕ) : Type 0 where
  pub items_new : items vec.new ≡ []
  pub is_empty : (v : V) → vec.empty v ≡ (length (items v) == 0)
  pub pushed : (v : V) (x : ℕ) → items (vec.push_back v x) ≡ items v ++ x ∷ []
  pub popped : (v : V) (xs : List ℕ) (x : ℕ) → items v ≡ xs ++ x ∷ [] → items (vec.pop_back v) ≡ xs

module _ {V : Type 0} (vec : Vector V) where
  unfoldable pub vec_push_loop : ℕ → ℕ → V → Outcome V
  vec_push_loop zero i v = ok v
  vec_push_loop (suc left) i v =
      let rest = vec_push_loop left (i + 1) (vec.push_back v i) in
      if vec.full v then bad_alloc else rest

  unfoldable pub vec_pop_loop : ℕ → V → Outcome V
  vec_pop_loop zero v = ok v
  vec_pop_loop (suc left) v =
      let rest = vec_pop_loop left (vec.pop_back v) in if vec.empty v then fault else rest

  unfoldable pub vec_rounds : ℕ → ℕ → V → Outcome V
  vec_rounds zero elems v = ok v
  vec_rounds (suc left) elems v =
      let body = (do
        pushed ← vec_push_loop elems 0 v
        v' ← vec_pop_loop elems pushed
        vec_rounds left elems v') in
      if vec.empty v then body else fault

-- `(static_cast<int64_t>(clock()) - start) / CLOCKS_PER_SEC`, which is cut towards zero.
pub data Seconds : Type 0 where
  seconds minus_seconds : ℕ → Seconds

unfoldable pub elapsed : (per_sec start now : ℕ) → Seconds
elapsed per_sec start now =
    if leb start now
    then seconds ((now - start) / per_sec)
    else minus_seconds ((start - now) / per_sec)

-- `ELEMS` and `REPS`
abbrev pub elems : ℕ
elems = 100000000

abbrev pub reps : ℕ
reps = 1000

abbrev freed_of : {A : Type 0} → Option A → Outcome A
freed_of none = fault
freed_of (some x) = ok x

-- `operator new` is called if no slot is left; `unavailable n` tells whether its call for block `n`
-- fails.
abbrev pub pool_short : (unavailable : ℕ → Bool) → Pool (Node ℕ) → Bool
pool_short unavailable s =
    (s.free_slots == null) && leb s.last_slot s.current_slot && unavailable s.news

module _ {S V : Type 0} (std : Allocator (Node ℕ) S) (std_short : S → Bool) (s0 : S)
    (vec : Vector V) (z : Sizes) (os : ℕ → Ptr) (unavailable : ℕ → Bool) (m : Ptr → Slot (Node ℕ))
    (clock : ℕ → ℕ) (per_sec : ℕ) where
  -- The three times, and the blocks that the destructor of the pool frees. The readings of the clock
  -- are those of `clock`, in order. At a `bad_alloc`, which no one catches, the program stops; what it has
  -- printed before is not kept here. At the end the stacks are destroyed, the last one first.
  unfoldable pub benchmark : (reps elems : ℕ) → Outcome (List Seconds × List Ptr)
  benchmark reps elems = do
    d ← rounds std std_short reps elems (new_stack std s0)
    p ←
        rounds (pool_allocator z os) (pool_short unavailable) reps elems
          (new_stack (pool_allocator z os) (init m))
    v ← vec_rounds vec reps elems vec.new
    p' ← clear (pool_allocator z os) 1 p
    freed ← freed_of (release p'.allocator)
    d' ← clear std 1 d
    ok (
      elapsed per_sec (clock 0) (clock 1)
          ∷ elapsed per_sec (clock 2) (clock 3)
          ∷ elapsed per_sec (clock 4) (clock 5)
          ∷ [],
      freed,
    )

  unfoldable pub benchmark_main : Outcome (List Seconds × List Ptr)
  benchmark_main = benchmark reps elems
