-- ===== src/StackAlloc/Refines.antt =====
-- StackAlloc.hpp: over any allocator that keeps its promises, the stack is a list.
use collection_of_mini_proje.Prelude.{
  ℕ, zero, suc, ◌<◌, ◌≡◌, ap, ◌∙◌, fun_ext, subst, Bool, true, false, [], ◌∷◌, ◌==◌, length, arith,
}
use collection_of_mini_proje.MemoryPool.{Ptr, null}
use collection_of_mini_proje.MemoryPool.Invariant.{mark}
use collection_of_mini_proje.StackAlloc.{Node, Stack, ok, thrown, push, unlink, pop, top, clear}
use collection_of_mini_proje.StackAlloc.Interface.{Allocator, IsAllocator}
use collection_of_mini_proje.StackAlloc.Chain.{
  Cells, in_cells, cons, Front, Chain-frame, Chain-Front, Chain-empty, IsStack,
}

in_cells-mark {ℓ} :
    {T : Type ℓ} (p : Ptr) (x : T) (cs : Cells T)
    → mark (in_cells cs) p true ≡ in_cells ((p, x) ∷ cs)
in_cells-mark p x cs = fun_ext λ b. ground arith

module _ {ℓ} {T S : Type ℓ} {a : Allocator (Node T) S} {Holds : S → (Ptr → Bool) → Type ℓ}
    (laws : IsAllocator a Holds) where
  -- `push` puts a new node on top.
  pub push_lem :
      {st : Stack S} {cs : Cells T} (x : T)
      → IsStack a Holds st cs
      → (st' : Stack S) × (p : Ptr) × (push a st x ≡ ok st') × IsStack a Holds st' ((p, x) ∷ cs)
  unfolding push
  push_lem {st} {cs} x is =
      let f = laws.allocated is.holds in
      let n : Node T = record { value = x; prev = st.head } in
      let taken : mark (in_cells cs) f.p true f.p ≡ true = ground arith in
      (
        record { allocator = a.construct f.state f.p n; head = f.p },
        f.p,
        rw (f.returned, push),
        record {
          chain = cons f.not_null (laws.read_constructed f.state f.p n) f.fresh (
              Chain-frame is.chain λ q i.
                laws.read_construct_ne f.state f.p q n (λ e. cc (ap (in_cells cs) e, i, f.fresh))
                ∙ f.same q i);
          holds = subst (Holds _) (in_cells-mark f.p x cs) (laws.constructed f.p n f.holds taken);
        },
      )

  unlink-IsStack :
      {st : Stack S} {c : Ptr × T} {cs : Cells T}
      → Holds st.allocator (in_cells (c ∷ cs))
      → (f : Front (a.read st.allocator) st.head c cs)
      → IsStack a Holds (unlink a st (record { value = c.1; prev = f.q })) cs
  unfolding unlink
  unlink-IsStack {st} {c} {cs} holds f =
      let held : in_cells (c ∷ cs) st.head ≡ true = ground (arith, f.here) in
      let left : mark (in_cells (c ∷ cs)) st.head false ≡ in_cells cs =
        fun_ext λ b. ground (arith, f.here, f.out) in
      record {
        chain = Chain-frame f.rest λ q i.
            laws.read_give_back_ne st.allocator st.head q (λ e. cc (ap (in_cells cs) e, i, f.out));
        holds = subst (Holds _) left (laws.given_back st.head holds held);
      }

  -- `pop` returns the value on top, and gives its node back.
  pub pop_lem :
      {st : Stack S} {c : Ptr × T} {cs : Cells T}
      → IsStack a Holds st (c ∷ cs)
      → (st' : Stack S) × (pop a st ≡ ok (st', c.1)) × IsStack a Holds st' cs
  unfolding pop
  pop_lem {st} {c} {cs} is =
      let f = Chain-Front is.chain in
      let valid : (st.head == null) ≡ false = ground (arith, f.not_null) in
      (
        unlink a st (record { value = c.1; prev = f.q }),
        rw (valid, f.reads),
        unlink-IsStack is.holds f,
      )

  pub pop-nil : {st : Stack S} → IsStack a Holds st [] → pop a st ≡ thrown
  unfolding pop
  pop-nil is = rw (Chain-empty is.chain)

  pub top_lem :
      {st : Stack S} {c : Ptr × T} {cs : Cells T} → IsStack a Holds st (c ∷ cs) → top a st ≡ ok c.1
  unfolding top
  top_lem {st} is =
      let f = Chain-Front is.chain in
      let valid : (st.head == null) ≡ false = ground (arith, f.not_null) in rw (valid, f.reads)

  -- `clear` ends, and gives every node back.
  pub clear_lem :
      (fuel : ℕ) (st : Stack S) (cs : Cells T)
      → IsStack a Holds st cs
      → length cs < fuel
      → (st' : Stack S) × (clear a fuel st ≡ ok st') × IsStack a Holds st' []
  unfolding clear
  clear_lem zero st cs is h = absurd (omega arith)
  clear_lem (suc fuel) st [] is h = (st, rw (Chain-empty is.chain), is)
  clear_lem (suc fuel) st (c ∷ cs) is h =
      let f = Chain-Front is.chain in
      let valid : (st.head == null) ≡ false = ground (arith, f.not_null) in
      let (st', e, is') = clear_lem fuel _ cs (unlink-IsStack is.holds f) (omega arith) in
      (st', rw (valid, f.reads) e, is')
