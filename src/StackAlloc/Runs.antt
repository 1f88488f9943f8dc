-- ===== src/StackAlloc/Runs.antt =====
-- StackAlloc.hpp: sequences of calls against the same calls on a list.
use collection_of_mini_proje.Prelude.{ℕ, ◌+◌, ◌<◌, ◌≡◌, refl, Bool, List, [], ◌∷◌, length, arith}
use collection_of_mini_proje.MemoryPool.{Ptr}
use collection_of_mini_proje.StackAlloc.{
  Node, Stack, Outcome, ok, thrown, bad_alloc, fault, out_of_fuel, push, pop, clear,
}
use collection_of_mini_proje.StackAlloc.Interface.{Allocator, IsAllocator}
use collection_of_mini_proje.StackAlloc.Chain.{Cells, IsStack}
use collection_of_mini_proje.StackAlloc.Refines.{push_lem, pop_lem, pop-nil, clear_lem}

pub data Call {ℓ} (T : Type ℓ) : Type ℓ where
  push_of : T → Call T
  pop_of : Call T
  clear_of : Call T

pub data Reply {ℓ} (T : Type ℓ) : Type ℓ where
  done : Reply T
  value : T → Reply T
  error : Reply T

module _ {ℓ} {T : Type ℓ} where
  -- The calls on a list.
  unfoldable pub list_call : Call T → List T → List T × Reply T
  list_call (push_of x) xs = (x ∷ xs, done)
  list_call pop_of [] = ([], error)
  list_call pop_of (x ∷ xs) = (xs, value x)
  list_call clear_of xs = ([], done)

  unfoldable pub list_run : List (Call T) → List T → List T × List (Reply T)
  list_run [] xs = (xs, [])
  list_run (c ∷ cs) xs =
      let (ys, r) = list_call c xs in let (zs, rs) = list_run cs ys in (zs, r ∷ rs)

  abbrev pub values : Cells T → List T
  values [] = []
  values ((p, x) ∷ cs) = x ∷ values cs

module _ {ℓ} {T S : Type ℓ} (a : Allocator (Node T) S) where
  -- A client's call, which catches the exception.
  unfoldable pub call : ℕ → Call T → Stack S → Outcome (Stack S × Reply T)
  call fuel (push_of x) st = elim (push a st x) [
    | ok st' ↦ ok (st', done)
    | thrown ↦ ok (st, error)
    | bad_alloc ↦ bad_alloc
    | fault ↦ fault
    | out_of_fuel ↦ out_of_fuel
  ]
  call fuel pop_of st = elim (pop a st) [
    | ok (st', x) ↦ ok (st', value x)
    | thrown ↦ ok (st, error)
    | bad_alloc ↦ bad_alloc
    | fault ↦ fault
    | out_of_fuel ↦ out_of_fuel
  ]
  call fuel clear_of st = elim (clear a fuel st) [
    | ok st' ↦ ok (st', done)
    | thrown ↦ ok (st, error)
    | bad_alloc ↦ bad_alloc
    | fault ↦ fault
    | out_of_fuel ↦ out_of_fuel
  ]

  unfoldable pub run : ℕ → List (Call T) → Stack S → Outcome (Stack S × List (Reply T))
  run fuel [] st = ok (st, [])
  run fuel (c ∷ cs) st =
      let rest = λ (t : Stack S). run fuel cs t in
      elim (call fuel c st) [
        | ok (st', r) ↦ elim (rest st') [
          | ok (st'', rs) ↦ ok (st'', r ∷ rs)
          | thrown ↦ thrown
          | bad_alloc ↦ bad_alloc
          | fault ↦ fault
          | out_of_fuel ↦ out_of_fuel
        ]
        | thrown ↦ thrown
        | bad_alloc ↦ bad_alloc
        | fault ↦ fault
        | out_of_fuel ↦ out_of_fuel
      ]

run-cons {ℓ} :
    {T S : Type ℓ} (a : Allocator (Node T) S) (fuel : ℕ) (c : Call T) (cs : List (Call T))
    (st : Stack S) {st' st'' : Stack S} {r : Reply T} {rs : List (Reply T)}
    → call a fuel c st ≡ ok (st', r)
    → run a fuel cs st' ≡ ok (st'', rs)
    → run a fuel (c ∷ cs) st ≡ ok (st'', r ∷ rs)
unfolding run
run-cons a fuel c cs st e e' = rw (e, run) (rw (e', run))

-- One call replies as on the list, and leaves the list's new contents.
pub record Called {ℓ} {T S : Type ℓ} (a : Allocator (Node T) S) (Holds : S → (Ptr → Bool) → Type ℓ)
    (fuel : ℕ) (c : Call T) (st : Stack S) (cs : Cells T) : Type ℓ where
  pub state : Stack S
  pub cells : Cells T
  pub replied : call a fuel c st ≡ ok (state, (list_call c (values cs)).1)
  pub contents : values cells ≡ (list_call c (values cs)).0
  pub grown : length cells < length cs + 2
  pub is : IsStack a Holds state cells

module _ {ℓ} {T S : Type ℓ} {a : Allocator (Node T) S} {Holds : S → (Ptr → Bool) → Type ℓ}
    (laws : IsAllocator a Holds) where
  call_lem :
      (fuel : ℕ) (c : Call T) (st : Stack S) (cs : Cells T)
      → IsStack a Holds st cs
      → length cs < fuel
      → Called a Holds fuel c st cs
  unfolding call list_call
  call_lem fuel (push_of x) st cs is h =
      let (st', p, e, is') = push_lem laws x is in
      record {
        state = st';
        cells = (p, x) ∷ cs;
        replied = rw (e, call);
        contents = refl;
        grown = omega arith;
        is = is';
      }
  call_lem fuel pop_of st [] is h = record {
    state = st;
    cells = [];
    replied = rw (pop-nil laws is, call);
    contents = refl;
    grown = omega arith;
    is = is;
  }
  call_lem fuel pop_of st ((p, x) ∷ cs) is h =
      let (st', e, is') = pop_lem laws is in
      record {
        state = st';
        cells = cs;
        replied = rw (e, call);
        contents = refl;
        grown = omega arith;
        is = is';
      }
  call_lem fuel clear_of st cs is h =
      let (st', e, is') = clear_lem laws fuel st cs is h in
      record {
        state = st';
        cells = [];
        replied = rw (e, call);
        contents = refl;
        grown = omega arith;
        is = is';
      }

  -- Over an allocator that keeps its promises, from a stack whose nodes are `cs`, with fuel above
  -- its length and the number of calls, any calls end, reply as the calls on the list of its
  -- values, and leave a stack of the list's new values that holds its nodes and no others.
  pub run-list_run :
      (fuel : ℕ) (calls : List (Call T)) (st : Stack S) (cs : Cells T)
      → IsStack a Holds st cs
      → length cs + length calls < fuel
      → (st' : Stack S) × (cs' : Cells T) × (run a fuel calls st
          ≡ ok (st', (list_run calls (values cs)).1))
        × (values cs' ≡ (list_run calls (values cs)).0)
        × IsStack a Holds st' cs'
  unfolding list_run
  run-list_run fuel [] st cs is h = (st, cs, unfold run in refl, refl, is)
  run-list_run fuel (c ∷ calls) st cs is h =
      let r = call_lem fuel c st cs is (omega arith) in
      let (st', cs', e, same, is') =
        run-list_run fuel calls r.state r.cells r.is (omega (arith, r.grown)) in
      (
        st',
        cs',
        run-cons a fuel c calls st r.replied (rw (← r.contents) e),
        rw (← r.contents) same,
        is',
      )
