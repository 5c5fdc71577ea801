-- ===== src/Engine/Fusion.antt =====
-- src/prooflens/engine/fusion/fuse.py: the soft blend, the hard gates and the final band.
pub mod Capped
pub mod Reasons
pub mod Fired
pub mod Bands
use prooflens.Base.{
  ℤ, pos, String, Bool, false, not, ◌&&◌, ◌||◌, List, [], ◌∷◌, ◌++◌, map, Option, none, some, Dict,
  lookup, insert, truthy, or_else, ltb_ℤ, eqb_ℤ, lower_is, if◌then◌else◌, string_eq,
}
use prooflens.Engine.Number.{Float, fmin, fmax, is_nonzero, zero_float}
use prooflens.Engine.Config.{Weights, Caps, ScoringConfig}
use prooflens.Engine.Types.{CheckOutcome, Details}
use prooflens.Engine.Verdicts.{
  Band, Reason, recycled, screen_recapture, designed_graphic, no_people_or_irrelevant, not_a_visit,
  single_person, no_visit_context, too_blurred, no_content_analysis, most_severe, reason_text,
  same_reason,
}

-- The three flags of the content check that exclude the meeting gates.
abbrev pub red_flag : Details → Bool
red_flag d =
    truthy d.looks_like_photo_of_a_screen
    || truthy d.is_designed_graphic
    || truthy d.is_meme_or_screenshot

-- `str(d.get("context_confidence", "")).lower() == "high"`
unfoldable pub conf_high : Details → Bool
conf_high d = lower_is (or_else d.context_confidence "") "high"

-- `vc is not None and int(vc) < gate`
abbrev pub context_below : Option ℤ → ℤ → Bool
context_below none gate = false
context_below (some vc) gate = ltb_ℤ vc gate

module _ {R : Type 0} where
  -- `{c.name: c for c in outcomes}`
  abbrev pub index_from :
      Dict String (CheckOutcome R) → List (CheckOutcome R) → Dict String (CheckOutcome R)
  index_from d [] = d
  index_from d (c ∷ cs) = index_from (insert c.name c d) cs

  abbrev pub by_name : List (CheckOutcome R) → Dict String (CheckOutcome R)
  by_name outcomes = index_from [] outcomes

  -- `x and x.available`
  abbrev pub when_available : Option (CheckOutcome R) → Option Details
  when_available none = none
  when_available (some c) = if c.available then some c.details else none

  -- `if c: fired.append(...)`
  abbrev pub fire_if : Bool → Reason → R → List (Reason × R)
  fire_if c reason cap = if c then (reason, cap) ∷ [] else []

  unfoldable pub uniqueness_gates : Option Details → Caps R → List (Reason × R)
  uniqueness_gates none caps = []
  uniqueness_gates (some d) caps =
      if truthy d.exact_duplicate
      then (recycled, caps.duplicate) ∷ []
      else fire_if (truthy d.near_duplicate) recycled caps.near_duplicate

  unfoldable pub recapture_gates : Option Details → Caps R → List (Reason × R)
  recapture_gates none caps = []
  recapture_gates (some d) caps =
      fire_if (truthy d.screen_detected) screen_recapture caps.screen_recapture

  unfoldable pub sharpness_gates : Option Details → Caps R → List (Reason × R)
  sharpness_gates none caps = []
  sharpness_gates (some d) caps = fire_if (truthy d.too_blurred) too_blurred caps.too_blurred

  -- The gates on the number of people and on plausibility.
  unfoldable pub people_gates : Details → ScoringConfig R → List (Reason × R)
  people_gates d cfg =
      if eqb_ℤ (or_else d.people_count (pos 0)) (pos 0)
      then (no_people_or_irrelevant, cfg.caps.no_people) ∷ []
      else fire_if (ltb_ℤ (or_else d.plausibility (pos 0)) cfg.thresholds.plausibility_gate)
          no_people_or_irrelevant cfg.caps.low_plausibility

  -- The meeting gates, under a confident reading.
  unfoldable pub confident_gates : Details → ScoringConfig R → List (Reason × R)
  confident_gates d cfg =
      fire_if (context_below d.visit_context cfg.thresholds.no_visit_suspect_gate) not_a_visit
        cfg.caps.not_a_visit
      ++ (if eqb_ℤ (or_else d.people_count (pos 0)) (pos 1)
          then (single_person, cfg.caps.weak_visit_context) ∷ []
          else fire_if (context_below d.visit_context cfg.thresholds.visit_context_gate)
              no_visit_context cfg.caps.weak_visit_context)

  unfoldable pub meeting_gates : Details → ScoringConfig R → List (Reason × R)
  meeting_gates d cfg =
      if ltb_ℤ (pos 0) (or_else d.people_count (pos 0)) && not (red_flag d)
      then if conf_high d
        then confident_gates d cfg
        else fire_if (context_below d.visit_context cfg.thresholds.no_visit_suspect_gate)
            no_visit_context cfg.caps.weak_visit_context
      else []

  -- The red flags of the capture itself.
  unfoldable pub capture_gates : Details → ScoringConfig R → List (Reason × R)
  capture_gates d cfg =
      fire_if (truthy d.looks_like_photo_of_a_screen) screen_recapture cfg.caps.screen_recapture
      ++ fire_if (truthy d.is_designed_graphic || truthy d.is_meme_or_screenshot) designed_graphic
          cfg.caps.designed_graphic

  -- The content branch of `_gates`, for an available check and for one that is not.
  unfoldable pub assessed_gates : Details → ScoringConfig R → List (Reason × R)
  assessed_gates d cfg = capture_gates d cfg ++ (people_gates d cfg ++ meeting_gates d cfg)

  unfoldable pub content_gates : Option (CheckOutcome R) → ScoringConfig R → List (Reason × R)
  content_gates none cfg = []
  content_gates (some c) cfg =
      if c.available
      then assessed_gates c.details cfg
      else (no_content_analysis, cfg.caps.no_content) ∷ []

  unfoldable pub gates : Dict String (CheckOutcome R) → ScoringConfig R → List (Reason × R)
  gates checks cfg =
      uniqueness_gates (when_available (lookup "uniqueness" checks)) cfg.caps
      ++ (recapture_gates (when_available (lookup "recapture" checks)) cfg.caps
          ++ (content_gates (lookup "content" checks) cfg
              ++ sharpness_gates (when_available (lookup "sharpness" checks)) cfg.caps))

  abbrev pub reasons_of : List (Reason × R) → List Reason
  reasons_of fired = map (λ g. g.0) fired

pub record FusionResult (R : Type 0) : Type 0 where
  pub score : R
  pub band : Band
  pub reason : String
  pub reason_code : Reason

module _ (F : Float) where
  open F use {Carrier, le, add, mul, div, round1, thousandths}

  -- One round of the loop of `_blend`, on (acc, total_w).
  unfoldable pub blend_step :
      Option (CheckOutcome Carrier) → Carrier → Carrier × Carrier → Carrier × Carrier
  blend_step none w (acc, total) = (acc, total)
  blend_step (some c) w (acc, total) = if not c.available then (acc, total) else elim c.score [
    | none ↦ (acc, total)
    | some s ↦ if le w (zero_float F) then (acc, total) else (add acc (mul w s), add total w)
  ]

  -- The loop of `_blend` over `_BLEND_WEIGHT_ATTR`
  unfoldable pub blend_sums :
      Dict String (CheckOutcome Carrier) → Weights Carrier → Carrier × Carrier
  blend_sums checks w =
      let s0 = blend_step (lookup "content" checks) w.content (zero_float F, zero_float F) in
      let s1 = blend_step (lookup "sharpness" checks) w.sharpness s0 in
      let s2 = blend_step (lookup "uniqueness" checks) w.uniqueness s1 in
      blend_step (lookup "exif" checks) w.metadata s2

  unfoldable pub blend : Dict String (CheckOutcome Carrier) → ScoringConfig Carrier → Carrier
  blend checks cfg =
      let (acc, total) = blend_sums checks cfg.weights in
      if is_nonzero F total then div acc total else thousandths 50000

  unfoldable pub band_for : Carrier → ScoringConfig Carrier → Band
  band_for score cfg =
      if le cfg.bands.clear score
      then Band.clear
      else if le cfg.bands.doubtful score
      then Band.doubtful
      else Band.suspect

  -- `for _, cap in fired: score = min(score, cap)`
  unfoldable pub apply_caps : Carrier → List (Reason × Carrier) → Carrier
  apply_caps score [] = score
  apply_caps score ((reason, cap) ∷ fired) = apply_caps (fmin F score cap) fired

  -- `max(0.0, min(100.0, round(score, 1)))`
  unfoldable pub clamp_score : Carrier → Carrier
  clamp_score score = fmax F (zero_float F) (fmin F (thousandths 100000) (round1 score))

  unfoldable pub final_band : Reason → Carrier → ScoringConfig Carrier → Band
  final_band reason score cfg =
      if same_reason reason no_content_analysis then Band.unassessed else band_for score cfg

  unfoldable pub fuse : List (CheckOutcome Carrier) → ScoringConfig Carrier → FusionResult Carrier
  fuse outcomes cfg =
      let checks = by_name outcomes in
      let fired = gates checks cfg in
      let score = clamp_score (apply_caps (blend checks cfg) fired) in
      let reason = most_severe (reasons_of fired) in
      record {
        score = score;
        band = final_band reason score cfg;
        reason = reason_text reason;
        reason_code = reason;
      }
