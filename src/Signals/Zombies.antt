-- ===== src/Signals/Zombies.antt =====
-- Which children the handler of SIGCHLD waits for.
use collection_of_mini_proje.Prelude.{
  ℕ, zero, suc, ◌+◌, ◌<◌, ◌≡◌, refl, ap, subst, Bool, true, arith, if◌then◌else◌,
}
use collection_of_mini_proje.Signals.{
  Waiting, read_childproc, Processes, no_children, Step, forks, ends_first, ends_merged, delivered,
  returns, Reach, begun, more,
}

abbrev pub one_if : Bool → ℕ
one_if b = if b then 1 else 0

record Kept (s : Processes) : Type 0 where
  all : s.forked ≡ s.running + s.ended + s.handled
  left : s.ended ≡ s.merged + one_if s.pending + one_if s.handling

-- `n` children run.
abbrev all_running : ℕ → Processes
all_running n = record no_children { running = n; forked = n }

-- One child has ended and its signal is pending, and so have `m` others.
abbrev some_ended : ℕ → ℕ → ℕ → Processes
some_ended forked n m = record no_children {
  running = n;
  ended = suc m;
  pending = true;
  merged = m;
  forked = forked;
}

-- `n` more children than one, all ended, of which the handler has waited for one; no signal is left.
abbrev pub left_over : ℕ → Processes
left_over n = record no_children { ended = n; forked = suc n; handled = 1; merged = n }

module _ (w : Waiting) where
  read_childproc_lem : (n : ℕ) → read_childproc w (suc n) ≡ n
  unfolding read_childproc
  read_childproc_lem n = w.one_ended n

  reaped : (n : ℕ) → 0 < n → suc (read_childproc w n) ≡ n
  reaped zero h = absurd (omega arith)
  reaped (suc n) h = ap suc (read_childproc_lem n)

  Step-Kept : {s t : Processes} → Step w s t → Kept s → Kept t
  Step-Kept (forks e) k = rw e (record { all = omega (arith, k.all); left = k.left })
  Step-Kept (ends_first n r p e) k =
      rw e (record { all = omega (arith, k.all, r); left = ground (arith, k.left) })
  Step-Kept (ends_merged n r p e) k =
      rw e (record { all = omega (arith, k.all, r); left = ground (arith, k.left) })
  Step-Kept (delivered p h e) k = rw e (record { all = k.all; left = ground (arith, k.left) })
  Step-Kept {s} (returns h e) k =
      let some_ended : 0 < s.ended = ground (arith, k.left) in
      let one = reaped s.ended some_ended in
      rw e (record { all = omega (arith, k.all, one); left = ground (arith, k.left, one) })

  Reach-Kept : {s : Processes} → Reach w s → Kept s
  Reach-Kept begun = record { all = refl; left = refl }
  Reach-Kept (more r s) = Step-Kept s (Reach-Kept r)

  -- In every reachable state each child that was forked still runs, has ended, or was waited for by
  -- one run of the handler; and the ended children that are left are those whose signals were merged with a
  -- pending one, one more if a signal is pending, and one more if the handler runs.
  pub Reach-children :
      {s : Processes}
      → Reach w s
      → (s.forked ≡ s.running + s.ended + s.handled)
        × (s.ended ≡ s.merged + one_if s.pending + one_if s.handling)
  Reach-children r = let k = Reach-Kept r in (k.all, k.left)

  forks-Reach : (n : ℕ) → Reach w (all_running n)
  forks-Reach zero = begun
  forks-Reach (suc n) = more (forks-Reach n) (forks refl)

  suc_middle : (n m : ℕ) → n + suc m ≡ suc n + m
  suc_middle n m = omega arith

  zero_first : (n : ℕ) → n ≡ 0 + n
  zero_first n = omega arith

  merges-Reach :
      (forked n m : ℕ) → Reach w (some_ended forked (n + m) 0) → Reach w (some_ended forked n m)
  merges-Reach forked n zero r = subst (λ x. Reach w (some_ended forked x 0)) (omega arith) r
  merges-Reach forked n (suc m) r =
      let r' = subst (λ x. Reach w (some_ended forked x 0)) (suc_middle n m) r in
      more (merges-Reach forked (suc n) m r') (ends_merged n refl refl refl)

  -- For any number `n` some order of the steps leaves `n` ended children that no signal will have
  -- waited for: no child runs, no signal is pending, and no handler runs.
  pub Reach-left_over : (n : ℕ) → Reach w (left_over n)
  Reach-left_over n =
      let first = more (forks-Reach (suc n)) (ends_first n refl refl refl) in
      let all =
        merges-Reach (suc n) 0 n
          (subst (λ x. Reach w (some_ended (suc n) x 0)) (zero_first n) first) in
      let runs = more all (delivered refl refl refl) in
      more runs (returns refl (rw (read_childproc_lem n)))
