-- ===== src/Engine/Rules/Best.antt =====
-- The choice of a rule in packages/core/src/engine/gateway.ts, cod.ts and shipping.ts: the rule
-- that is picked among those that match.
use ghalla.Base.{
  ℕ, ◌≤◌, Bool, true, ◌&&◌, ◌≡◌, List, [], ◌∷◌, ◌++◌, Option, none, some, inl, inr, Bool-cases,
  if◌then◌else◌, arith,
}
use ghalla.Engine.Rules.{beats, pick_from, pick_best}

module _ {R : Type 0} (matches : R → Bool) (score : R → ℕ) where
  -- `b` matches, as does every rule already picked.
  abbrev pub Fits : Option R → Type 0
  Fits none = Unit
  Fits (some b) = matches b ≡ true

  -- The score of what is picked so far is at least `n`.
  abbrev pub AtLeast : ℕ → Option R → Type 0
  AtLeast n none = ⊥
  AtLeast n (some b) = n ≤ score b

  step-Fits :
      (r : R) (best : Option R)
      → Fits best
      → Fits (if matches r && beats matches score r best then some r else best)
  step-Fits r best h = elim (Bool-cases (matches r && beats matches score r best)) [
    | inl e ↦ rw e (ground arith)
    | inr e ↦ rw e h
  ]

  step_keeps :
      (n : ℕ) (r : R) (best : Option R)
      → AtLeast n best
      → AtLeast n (if matches r && beats matches score r best then some r else best)
  step_keeps n r none h = absurd h
  step_keeps n r (some b) h = ground arith

  step_covers :
      (r : R) (best : Option R)
      → matches r ≡ true
      → AtLeast (score r) (if matches r && beats matches score r best then some r else best)
  step_covers r none h = rw h (omega arith)
  step_covers r (some b) h = ground arith

  pick_from-Fits :
      (best : Option R) (rules : List R) → Fits best → Fits (pick_from matches score best rules)
  unfolding pick_from
  pick_from-Fits best [] h = h
  pick_from-Fits best (r ∷ rules) h =
      pick_from-Fits (if matches r && beats matches score r best then some r else best) rules
        (step-Fits r best h)

  pick_from-keeps :
      (n : ℕ) (best : Option R) (rules : List R)
      → AtLeast n best
      → AtLeast n (pick_from matches score best rules)
  unfolding pick_from
  pick_from-keeps n best [] h = h
  pick_from-keeps n best (r ∷ rules) h =
      pick_from-keeps n (if matches r && beats matches score r best then some r else best) rules
        (step_keeps n r best h)

  pick_from-split :
      (before after : List R) (r : R) (best : Option R)
      → matches r ≡ true
      → AtLeast (score r) (pick_from matches score best (before ++ (r ∷ after)))
  unfolding pick_from
  pick_from-split [] after r best h =
      pick_from-keeps (score r) (if matches r && beats matches score r best then some r else best)
        after (step_covers r best h)
  pick_from-split (b ∷ before) after r best h =
      pick_from-split before after r
        (if matches b && beats matches score b best then some b else best) h

  -- Where some rule matches, a rule is picked; the rule that is picked matches, and its score is at
  -- least that of any rule of the list that matches.
  pub pick_best-maximal :
      (before after : List R) (r : R)
      → matches r ≡ true
      → Fits (pick_best matches score (before ++ (r ∷ after)))
        × AtLeast (score r) (pick_best matches score (before ++ (r ∷ after)))
  unfolding pick_best
  pick_best-maximal before after r h =
      (pick_from-Fits none (before ++ (r ∷ after)) tt, pick_from-split before after r none h)
