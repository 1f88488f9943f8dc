-- ===== src/StackAlloc/Benchmark.antt =====
-- main.cxx of the memory pool project: the rounds that push and pop `ELEMS` numbers, over any
-- allocator. The program runs them over `std::allocator` and over the memory pool. The loops take
-- the number of rounds that are left. Clocks and output are left out.
use collection_of_mini_proje.Prelude.{
  ℕ, zero, suc, ◌+◌, ◌≡◌, ◌⊎◌, inl, inr, Bool-cases, refl, Bool, [], ◌∷◌, length, true, ◌==◌,
  if◌then◌else◌, arith,
}
use collection_of_mini_proje.MemoryPool.{Ptr, null}
use collection_of_mini_proje.StackAlloc.{
  Node, Stack, Outcome, ok, bad_alloc, fault, ◌>>=◌, empty, push, pop,
}
use collection_of_mini_proje.StackAlloc.Interface.{Allocator, IsAllocator}
use collection_of_mini_proje.StackAlloc.Chain.{Cells, IsStack, Chain-empty}
use collection_of_mini_proje.StackAlloc.Refines.{push_lem, pop_lem}

-- `short s` tells whether the next call of `allocate` gets no memory, and throws before it changes
-- anything; no one catches that exception.
module _ {S : Type 0} (a : Allocator (Node ℕ) S) (short : S → Bool) where
  -- `for (int i = 0; i < ELEMS; i++) stack.push(i);`
  unfoldable pub push_loop : ℕ → ℕ → Stack S → Outcome (Stack S)
  push_loop zero i st = ok st
  push_loop (suc left) i st =
      let pushed = (do st' ← push a st i; push_loop left (i + 1) st') in
      if short st.allocator then bad_alloc else pushed

  -- `for (int i = 0; i < ELEMS; i++) stack.pop();`
  unfoldable pub pop_loop : ℕ → Stack S → Outcome (Stack S)
  pop_loop zero st = ok st
  pop_loop (suc left) st = do (st', x) ← pop a st; pop_loop left st'

  -- The outer loop; an assertion that fails is a fault.
  unfoldable pub rounds : ℕ → ℕ → Stack S → Outcome (Stack S)
  rounds zero elems st = ok st
  rounds (suc left) elems st =
      let body = (do
        full ← push_loop elems 0 st
        st' ← pop_loop elems full
        rounds left elems st') in
      if empty a st then body else fault

-- Some state in which there is no memory left.
abbrev pub Short : {S : Type 0} → (S → Bool) → Type 0
Short {S} short = (s : S) × (short s ≡ true)

module _ {S : Type 0} {a : Allocator (Node ℕ) S} (short : S → Bool)
    {Holds : S → (Ptr → Bool) → Type 0} (laws : IsAllocator a Holds) where
  push_loop_lem :
      (left i : ℕ) (st : Stack S) (cs : Cells ℕ)
      → IsStack a Holds st cs
      → ((st' : Stack S) × (cs' : Cells ℕ) × (push_loop a short left i st ≡ ok st')
          × (length cs' ≡ length cs + left)
          × IsStack a Holds st' cs')
        ⊎ ((push_loop a short left i st ≡ bad_alloc) × Short short)
  unfolding push_loop
  push_loop_lem zero i st cs is = inl (st, cs, refl, omega arith, is)
  push_loop_lem (suc left) i st cs is = elim (Bool-cases (short st.allocator)) [
    | inl none_left ↦ inr (rw none_left, (st.allocator, none_left))
    | inr spare ↦
        let (st', p, e, is') = push_lem laws i is in
        elim (push_loop_lem left (i + 1) st' ((p, i) ∷ cs) is') [
          | inl (st'', cs'', e', n, is'') ↦
              inl (st'', cs'', rw (spare, e) e', omega (arith, n), is'')
          | inr (e', s) ↦ inr (rw (spare, e) e', s)
        ]
  ]

  pop_loop_lem :
      (left : ℕ) (st : Stack S) (cs : Cells ℕ)
      → IsStack a Holds st cs
      → length cs ≡ left
      → (st' : Stack S) × (pop_loop a short left st ≡ ok st') × IsStack a Holds st' []
  unfolding pop_loop
  pop_loop_lem zero st [] is h = (st, refl, is)
  pop_loop_lem zero st (c ∷ cs) is h = absurd (omega arith)
  pop_loop_lem (suc left) st [] is h = absurd (omega arith)
  pop_loop_lem (suc left) st (c ∷ cs) is h =
      let (st', e, is') = pop_lem laws is in
      let (st'', e', is'') = pop_loop_lem left st' cs is' (omega arith) in (st'', rw e e', is'')

  -- From an empty stack over an allocator that keeps its promises, all rounds of the benchmark
  -- end with no failed assertion, for any number of elements, and at the end the stack is empty and
  -- holds no node; or they end with the exception of a call that got no memory.
  pub rounds_lem :
      (left elems : ℕ) (st : Stack S)
      → IsStack a Holds st []
      → ((st' : Stack S) × (rounds a short left elems st ≡ ok st') × IsStack a Holds st' [])
        ⊎ ((rounds a short left elems st ≡ bad_alloc) × Short short)
  unfolding rounds empty
  rounds_lem zero elems st is = inl (st, refl, is)
  rounds_lem (suc left) elems st is =
      let none_left : (st.head == null) ≡ true = ground (arith, Chain-empty is.chain) in
      elim (push_loop_lem elems 0 st [] is) [
        | inr (e, s) ↦ inr (rw (none_left, e), s)
        | inl (full, cs, e, n, is') ↦
            let (st', e', is'') = pop_loop_lem elems full cs is' (omega (arith, n)) in
            elim (rounds_lem left elems st' is'') [
              | inl (st'', e'', done) ↦ inl (st'', rw (none_left, e, e') e'', done)
              | inr (e'', s) ↦ inr (rw (none_left, e, e') e'', s)
            ]
      ]
