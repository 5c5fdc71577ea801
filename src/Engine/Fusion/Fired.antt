-- ===== src/Engine/Fusion/Fired.antt =====
-- Which gates of `_gates` (src/prooflens/engine/fusion/fuse.py) fire on what evidence.
use prooflens.Base.{
  String, ◌≡◌, refl, inl, inr, true, false, [], ◌∷◌, Option, some, arith, In, Dict, lookup,
  string_eq, In-append_left, In-append_right,
}
use prooflens.Engine.Config.{ScoringConfig}
use prooflens.Engine.Types.{CheckOutcome}
use prooflens.Engine.Verdicts.{clear, recycled, no_content_analysis}
use prooflens.Engine.Fusion.Reasons.{assessed-reasons, content-reasons, gates-reasons}
use prooflens.Engine.Fusion.{
  when_available, uniqueness_gates, recapture_gates, content_gates, gates, reasons_of,
}

module _ {R : Type 0} where
  content-ne-clear :
      (o : Option (CheckOutcome R)) (cfg : ScoringConfig R)
      → ¬ In clear (reasons_of (content_gates o cfg))
  content-ne-clear o cfg m =
      let (c, known, how) = content-reasons clear o cfg m in
      elim how [
        | inl (on, a) ↦ ground (arith, assessed-reasons clear c.details cfg a)
        | inr (off, e) ↦ cc
      ]

  -- No gate reports `clear`.
  pub gates-ne-clear :
      (checks : Dict String (CheckOutcome R)) (cfg : ScoringConfig R)
      → ¬ In clear (reasons_of (gates checks cfg))
  gates-ne-clear checks cfg m = elim (gates-reasons clear checks cfg m) [
    | inl e ↦ cc
    | inr (inl e) ↦ cc
    | inr (inr (inl e)) ↦ cc
    | inr (inr (inr c)) ↦ content-ne-clear (lookup "content" checks) cfg c
  ]

  content-unavailable :
      (o : Option (CheckOutcome R)) (c : CheckOutcome R) (cfg : ScoringConfig R)
      → o ≡ some c
      → c.available ≡ false
      → content_gates o cfg ≡ (no_content_analysis, cfg.caps.no_content) ∷ []
  unfolding content_gates
  content-unavailable o c cfg known off = rw known (rw off)

  -- An unavailable vision check fires its gate, with its cap.
  pub gates-unavailable :
      (checks : Dict String (CheckOutcome R)) (c : CheckOutcome R) (cfg : ScoringConfig R)
      → lookup "content" checks ≡ some c
      → c.available ≡ false
      → In (no_content_analysis, cfg.caps.no_content) (gates checks cfg)
  unfolding gates
  gates-unavailable checks c cfg known off = In-append_right _ (uniqueness_gates _ cfg.caps) _ (
      In-append_right _ (recapture_gates _ cfg.caps) _ (
        In-append_left _ (content_gates (lookup "content" checks) cfg) _
          (rw (content-unavailable _ c cfg known off) (inl refl))))

  -- An exact duplicate fires its gate, with its cap.
  pub gates-duplicate :
      (checks : Dict String (CheckOutcome R)) (c : CheckOutcome R) (cfg : ScoringConfig R)
      → lookup "uniqueness" checks ≡ some c
      → c.available ≡ true
      → c.details.exact_duplicate ≡ some true
      → In (recycled, cfg.caps.duplicate) (gates checks cfg)
  unfolding gates uniqueness_gates
  gates-duplicate checks c cfg known on dup =
      In-append_left _ (uniqueness_gates (when_available (lookup "uniqueness" checks)) cfg.caps) _
        (rw known (rw on (rw dup (inl refl))))
