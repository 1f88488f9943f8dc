-- ===== src/StackAlloc/Chain.antt =====
-- StackAlloc.hpp: the list that a stack stands for, and each operation on it.
use collection_of_mini_proje.Prelude.{
  ◌<◌, ◌≡◌, refl, ◌∙◌, Bool, true, false, ◌||◌, Option, some, List, [], ◌∷◌, ◌==◌, arith,
}
use collection_of_mini_proje.MemoryPool.{Ptr, null}
use collection_of_mini_proje.StackAlloc.{Node, Stack}
use collection_of_mini_proje.StackAlloc.Interface.{Allocator}

-- The nodes of a stack, the top first.
abbrev pub Cells {ℓ} : Type ℓ → Type ℓ
Cells T = List (Ptr × T)

abbrev pub in_cells {ℓ} : {T : Type ℓ} → Cells T → Ptr → Bool
in_cells [] a = false
in_cells ((p, x) ∷ cs) a = (a == p) || in_cells cs a

-- From `p` the `prev` members lead through the distinct nodes `cs`.
pub data Chain {ℓ} {T : Type ℓ} (rd : Ptr → Option (Node T)) : Ptr → Cells T → Type ℓ where
  nil : Chain rd null []
  cons :
      {p q : Ptr} {x : T} {cs : Cells T}
      → 0 < p
      → rd p ≡ some (record { value = x; prev = q })
      → in_cells cs p ≡ false
      → Chain rd q cs
      → Chain rd p ((p, x) ∷ cs)

-- The parts of a chain with a first node.
pub record Front {ℓ} {T : Type ℓ} (rd : Ptr → Option (Node T)) (p : Ptr) (c : Ptr × T)
    (cs : Cells T) : Type ℓ where
  pub q : Ptr
  pub here : c.0 ≡ p
  pub not_null : 0 < p
  pub reads : rd p ≡ some (record { value = c.1; prev = q })
  pub out : in_cells cs p ≡ false
  pub rest : Chain rd q cs

module _ {ℓ} {T : Type ℓ} {rd : Ptr → Option (Node T)} where
  pub Chain-frame :
      {rd' : Ptr → Option (Node T)} {p : Ptr} {cs : Cells T}
      → Chain rd p cs
      → ((a : Ptr) → in_cells cs a ≡ true → rd' a ≡ rd a)
      → Chain rd' p cs
  Chain-frame nil same = nil
  Chain-frame (cons {p} pos e out c) same =
      cons pos (same p (ground arith) ∙ e) out (Chain-frame c λ a i. same a (ground arith))

  pub Chain-Front : {p : Ptr} {c : Ptr × T} {cs : Cells T} → Chain rd p (c ∷ cs) → Front rd p c cs
  Chain-Front (cons {q} pos e out c) = record {
    q = q;
    here = refl;
    not_null = pos;
    reads = e;
    out = out;
    rest = c;
  }

  pub Chain-empty : {p : Ptr} → Chain rd p [] → p ≡ null
  Chain-empty nil = refl

-- The stack's chain is `cs`, and the stack holds these nodes of its allocator and no others.
pub record IsStack {ℓ} {T S : Type ℓ} (a : Allocator (Node T) S) (Holds : S → (Ptr → Bool) → Type ℓ)
    (st : Stack S) (cs : Cells T) : Type ℓ where
  pub chain : Chain (a.read st.allocator) st.head cs
  pub holds : Holds st.allocator (in_cells cs)
