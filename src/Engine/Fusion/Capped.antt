-- ===== src/Engine/Fusion/Capped.antt =====
-- The score of `fuse` (src/prooflens/engine/fusion/fuse.py): its range, and the caps that bound it.
use prooflens.Base.{◌≡◌, sym, subst, true, List, [], ◌∷◌, inl, inr, In}
use prooflens.Engine.Number.{
  Float, fmin, zero_float, fmin-le_left, fmin-le_right, le-fmax_left, fmax_least, fmin_mono_right,
  fmax_mono_right,
}
use prooflens.Engine.Config.{ScoringConfig}
use prooflens.Engine.Types.{CheckOutcome}
use prooflens.Engine.Verdicts.{Reason}
use prooflens.Engine.Fusion.{gates, by_name, blend, apply_caps, clamp_score, fuse}

module _ (F : Float) where
  open F use {Carrier, le, round1, thousandths, le_trans, le_refl, le_total, round1_mono}

  pub apply_caps-le_start :
      (s : Carrier) (fired : List (Reason × Carrier)) → le (apply_caps F s fired) s ≡ true
  unfolding apply_caps
  apply_caps-le_start s [] = le_refl s
  apply_caps-le_start s ((r, cap) ∷ fired) =
      le_trans _ _ _ (apply_caps-le_start (fmin F s cap) fired) (fmin-le_left F s cap)

  pub apply_caps-le_cap :
      (s : Carrier) (fired : List (Reason × Carrier)) (r : Reason) (cap : Carrier)
      → In (r, cap) fired
      → le (apply_caps F s fired) cap ≡ true
  unfolding apply_caps
  apply_caps-le_cap s [] r cap m = absurd m
  apply_caps-le_cap s ((q, d) ∷ fired) r cap (inl e) =
      le_trans _ _ _ (apply_caps-le_start (fmin F s d) fired)
        (subst (λ (g : Reason × Carrier). le (fmin F s d) g.1 ≡ true) (sym e) (fmin-le_right F s d))
  apply_caps-le_cap s ((q, d) ∷ fired) r cap (inr m) = apply_caps-le_cap (fmin F s d) fired r cap m

  pub clamp_score_mono :
      (a b : Carrier) → le a b ≡ true → le (clamp_score F a) (clamp_score F b) ≡ true
  unfolding clamp_score
  clamp_score_mono a b h = fmax_mono_right F _ _ _ (fmin_mono_right F _ _ _ (round1_mono a b h))

  pub clamp_score_range :
      (s : Carrier)
      → (le (zero_float F) (clamp_score F s) ≡ true)
        × (le (clamp_score F s) (thousandths 100000) ≡ true)
  unfolding clamp_score
  clamp_score_range s =
      (le-fmax_left F _ _, fmax_least F _ _ _ (F.le-thousandths 0 100000) (fmin-le_left F _ _))

  -- The score lies between 0 and 100, and no fired gate is exceeded: the score is at most its
  -- cap, rounded to a tenth and clamped as the score is.
  pub fuse-capped :
      (outcomes : List (CheckOutcome Carrier)) (cfg : ScoringConfig Carrier)
      → let score = (fuse F outcomes cfg).score in
        (le (zero_float F) score ≡ true)
        × (le score (thousandths 100000) ≡ true)
        × ((r : Reason) (cap : Carrier)
            → In (r, cap) (gates (by_name outcomes) cfg)
            → le score (clamp_score F cap) ≡ true)
  unfolding fuse
  fuse-capped outcomes cfg =
      let range =
        clamp_score_range
          (apply_caps F (blend F (by_name outcomes) cfg) (gates (by_name outcomes) cfg)) in
      (range.0, range.1, λ r cap m. clamp_score_mono _ _ (apply_caps-le_cap _ _ r cap m))
