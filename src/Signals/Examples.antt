-- ===== src/Signals/Examples.antt =====
-- Two children that end together.
use collection_of_mini_proje.Prelude.{ℕ, zero, suc, ◌+◌, ◌≡◌, refl}
use collection_of_mini_proje.Signals.{Waiting, Reach}
use collection_of_mini_proje.Signals.Zombies.{Reach-children, Reach-left_over, left_over}

abbrev one_less : ℕ → ℕ
one_less zero = 0
one_less (suc n) = n

abbrev system : Waiting
system = record { waitpid = one_less; none_ended = refl; one_ended = λ n. refl }

-- One of the two is left, with no signal that would wait for it.
one_left : Reach system (left_over 1)
one_left = Reach-left_over system 1

Reach-children_example : (◌≡◌ {A = ℕ} 2 (0 + 1 + 1)) × (◌≡◌ {A = ℕ} 1 (1 + 0 + 0))
Reach-children_example = Reach-children system (Reach-left_over system 1)
