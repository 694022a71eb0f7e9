-- ===== src/Engine/Rules.antt =====
-- The loop that picks the most specific of the rules that match, as `bestRule`, `pick` and `ruleFor`
-- have it: a later rule wins only with a strictly higher score.
pub mod Best
use ghalla.Base.{ℕ, Bool, true, ◌&&◌, List, [], ◌∷◌, Option, none, some, ltb, if◌then◌else◌}

module _ {R : Type 0} (matches : R → Bool) (score : R → ℕ) where
  abbrev pub beats : R → Option R → Bool
  beats r none = true
  beats r (some b) = ltb (score b) (score r)

  unfoldable pub pick_from : Option R → List R → Option R
  pick_from best [] = best
  pick_from best (r ∷ rules) = pick_from (if matches r && beats r best then some r else best) rules

  unfoldable pub pick_best : List R → Option R
  pick_best = pick_from none
