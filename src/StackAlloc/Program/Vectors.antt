-- ===== src/StackAlloc/Program/Vectors.antt =====
-- The rounds over `std::vector`.
use collection_of_mini_proje.Prelude.{
  ℕ, zero, suc, ◌+◌, ◌≡◌, ◌⊎◌, inl, inr, Bool-cases, refl, ap, ◌∙◌, true, false, List, [], ◌∷◌,
  ◌++◌, length, arith, length-append,
}
use collection_of_mini_proje.StackAlloc.{ok, bad_alloc}
use collection_of_mini_proje.StackAlloc.Benchmark.{Short}
use collection_of_mini_proje.StackAlloc.Program.{
  Vector, IsVector, vec_push_loop, vec_pop_loop, vec_rounds,
}

-- A list that is not empty has a last element.
last_of : (x : ℕ) (xs : List ℕ) → (ys : List ℕ) × (y : ℕ) × (x ∷ xs ≡ ys ++ y ∷ [])
last_of x [] = ([], x, refl)
last_of x (x' ∷ xs) = let (ys, y, e) = last_of x' xs in (x ∷ ys, y, ap (λ l. x ∷ l) e)

module _ {V : Type 0} {vec : Vector V} {items : V → List ℕ} (laws : IsVector vec items) where
  vec_push_loop_lem :
      (left i : ℕ) (v : V)
      → ((v' : V) × (vec_push_loop vec left i v ≡ ok v')
          × (length (items v') ≡ length (items v) + left))
        ⊎ ((vec_push_loop vec left i v ≡ bad_alloc) × Short vec.full)
  unfolding vec_push_loop
  vec_push_loop_lem zero i v = inl (v, refl, omega arith)
  vec_push_loop_lem (suc left) i v = elim (Bool-cases (vec.full v)) [
    | inl none_left ↦ inr (rw none_left, (v, none_left))
    | inr spare ↦ elim (vec_push_loop_lem left (i + 1) (vec.push_back v i)) [
      | inr (e, s) ↦ inr (rw spare e, s)
      | inl (v', e, n) ↦ inl (
        v',
        rw spare e,
        omega (arith, n, ap length (laws.pushed v i), length-append (items v) (i ∷ [])),
      )
    ]
  ]

  vec_pop_loop_lem :
      (left : ℕ) (v : V)
      → length (items v) ≡ left
      → (v' : V) × (vec_pop_loop vec left v ≡ ok v') × (items v' ≡ [])
  unfolding vec_pop_loop
  vec_pop_loop_lem zero v h = (v, refl, no_items (items v) h)
    where
      no_items : (xs : List ℕ) → length xs ≡ 0 → xs ≡ []
      no_items [] h = refl
      no_items (x ∷ xs) h = absurd (omega arith)
  vec_pop_loop_lem (suc left) v h =
      let (xs, x, e) = some_items (items v) h in
      let shorter : length xs ≡ left = omega (arith, h, ap length e, length-append xs (x ∷ [])) in
      let gone = laws.popped v xs x e in
      let (v', e', done) = vec_pop_loop_lem left (vec.pop_back v) (ap length gone ∙ shorter) in
      let some_left : vec.empty v ≡ false = ground (arith, laws.is_empty v, h) in
      (v', rw some_left e', done)
    where
      some_items :
          {n : ℕ} (l : List ℕ) → length l ≡ suc n → (ys : List ℕ) × (y : ℕ) × (l ≡ ys ++ y ∷ [])
      some_items [] h = absurd (omega (arith, h))
      some_items (x ∷ xs) h = last_of x xs

  pub vec_rounds_lem :
      (left elems : ℕ) (v : V)
      → items v ≡ []
      → ((v' : V) × (vec_rounds vec left elems v ≡ ok v') × (items v' ≡ []))
        ⊎ ((vec_rounds vec left elems v ≡ bad_alloc) × Short vec.full)
  unfolding vec_rounds
  vec_rounds_lem zero elems v h = inl (v, refl, h)
  vec_rounds_lem (suc left) elems v h =
      let begins : vec.empty v ≡ true = laws.is_empty v ∙ rw h in
      elim (vec_push_loop_lem elems 0 v) [
        | inr (e, s) ↦ inr (rw (begins, e), s)
        | inl (pushed, e, n) ↦
            let (v', e', none_left) =
              vec_pop_loop_lem elems pushed (omega (arith, n, ap length h)) in
            elim (vec_rounds_lem left elems v' none_left) [
              | inl (v'', e'', done) ↦ inl (v'', rw (begins, e, e') e'', done)
              | inr (e'', s) ↦ inr (rw (begins, e, e') e'', s)
            ]
      ]
