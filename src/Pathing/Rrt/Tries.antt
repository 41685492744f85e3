-- ===== src/Pathing/Rrt/Tries.antt =====
-- The tries of an iteration and its epochs (src/pathing/static.cpp).
use obcpp.Base.{none, ℕ, if_both, zero, suc, ◌+◌, ◌≡◌, refl, ◌==◌}
use obcpp.Pathing.Rrt.Connect.{Problem, Rrt, failed, epoch_evaluation, passed_by_value}
use obcpp.Pathing.Rrt.{one_try, tries_from}

module _ {Point Coord Length Curve Angle : Type 0}
    (p : Problem Point Coord Length Curve Angle) where
  -- One try after the other.
  unfoldable pub tried : ℕ → Rrt Point Coord Length → Rrt Point Coord Length
  tried zero s = s
  tried (suc left) s = tried left (one_try p s)

  -- From no node of an epoch before, the loop of the tries takes them all, wherever the epochs lie and
  -- whatever they find: what an epoch finds stays in its own copies, so no epoch ends the loop.
  pub tries_from_lem :
      (left i current_epoch epoch_interval current_goal_index : ℕ) (goal : Coord)
      (s : Rrt Point Coord Length)
      → tries_from p left i current_epoch epoch_interval current_goal_index goal none s
        ≡ (tried left s, failed)
  unfolding tries_from tried epoch_evaluation passed_by_value
  tries_from_lem zero i epoch interval index goal s = refl
  tries_from_lem (suc left) i epoch interval index goal s =
      if_both (λ r. r ≡ (tried left (one_try p s), failed)) (i == epoch)
        (tries_from_lem left (i + 1) (epoch + interval) interval index goal (one_try p s))
        (tries_from_lem left (i + 1) epoch interval index goal (one_try p s))
