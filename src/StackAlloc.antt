-- ===== src/StackAlloc.antt =====
-- StackAlloc.hpp of the memory pool project: a linked stack whose nodes come from an allocator,
-- the template's parameter `Alloc`.
pub mod Interface
pub mod Chain
pub mod Refines
pub mod Runs
pub mod Benchmark
pub mod OnPool
pub mod Program
pub mod Examples
use collection_of_mini_proje.Prelude.{
  ℕ, zero, suc, Bool, Option, none, some, List, [], ◌∷◌, ◌==◌, if◌then◌else◌,
}
use collection_of_mini_proje.MemoryPool.{Ptr, null}
use Interface.{Allocator}

-- `StackNode_`
pub record Node {ℓ} (T : Type ℓ) : Type ℓ where
  pub value : T
  pub prev : Ptr

pub record Stack {ℓ} (S : Type ℓ) : Type ℓ where
  pub allocator : S
  pub head : Ptr

-- `thrown` is the `std::runtime_error` of `pop`, `bad_alloc` the exception of a call that gets no
-- memory, `fault` a read of what is no node.
pub data Outcome {ℓ} (A : Type ℓ) : Type ℓ where
  ok : A → Outcome A
  thrown : Outcome A
  bad_alloc : Outcome A
  fault : Outcome A
  out_of_fuel : Outcome A

module _ {ℓ} {A B : Type ℓ} where
  infixl 5 ◌>>=◌
  abbrev pub ◌>>=◌ : Outcome A → (A → Outcome B) → Outcome B
  ok x >>= f = f x
  thrown >>= f = thrown
  bad_alloc >>= f = bad_alloc
  fault >>= f = fault
  out_of_fuel >>= f = out_of_fuel

module _ {ℓ} {T S : Type ℓ} (a : Allocator (Node T) S) where
  unfoldable pub new_stack : S → Stack S
  new_stack s = record { allocator = s; head = null }

  unfoldable pub empty : Stack S → Bool
  empty st = st.head == null

  unfoldable pub push : Stack S → T → Outcome (Stack S)
  push st x = elim (a.allocate st.allocator) [
    | none ↦ fault
    | some (s, temp) ↦ ok (record {
      allocator = a.construct s temp (record { value = x; prev = st.head });
      head = temp;
    })
  ]

  -- The end of `pop` and of a round of `clear`: the head moves on, and its node is given back.
  unfoldable pub unlink : Stack S → Node T → Stack S
  unlink st n = record {
    allocator = a.deallocate (a.destroy st.allocator st.head) st.head;
    head = n.prev;
  }

  unfoldable pub pop : Stack S → Outcome (Stack S × T)
  pop st =
      if st.head == null
      then thrown
      else elim (a.read st.allocator st.head) [ none ↦ fault | some n ↦ ok (unlink st n, n.value) ]

  -- Undefined behaviour on an empty stack, which this `top` does not test for.
  unfoldable pub top : Stack S → Outcome T
  top st =
      if st.head == null
      then fault
      else elim (a.read st.allocator st.head) [ none ↦ fault | some n ↦ ok n.value ]

  -- One round per unit of fuel; the destructor is a call of `clear`.
  unfoldable pub clear : ℕ → Stack S → Outcome (Stack S)
  clear zero st = out_of_fuel
  clear (suc fuel) st =
      let rest = λ (n : Node T). clear fuel (unlink st n) in
      if st.head == null
      then ok st
      else elim (a.read st.allocator st.head) [ none ↦ fault | some n ↦ rest n ]
