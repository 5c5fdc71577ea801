-- ===== src/Engine/Config.antt =====
-- src/prooflens/engine/scoring_config.py: weights, thresholds, caps and bands, with the defaults.
use prooflens.Base.{ℤ, pos}
use prooflens.Engine.Number.{Float}

pub record Weights (R : Type 0) : Type 0 where
  pub content : R
  pub sharpness : R
  pub uniqueness : R
  pub metadata : R

pub record Thresholds (R : Type 0) : Type 0 where
  pub blur_floor : R
  pub sharp_ok : R
  pub dup_exact : ℤ
  pub dup_near : ℤ
  pub unique_distance : ℤ
  pub plausibility_gate : ℤ
  pub visit_context_gate : ℤ
  pub no_visit_suspect_gate : ℤ

pub record Caps (R : Type 0) : Type 0 where
  pub duplicate : R
  pub near_duplicate : R
  pub screen_recapture : R
  pub designed_graphic : R
  pub no_people : R
  pub low_plausibility : R
  pub weak_visit_context : R
  pub not_a_visit : R
  pub too_blurred : R
  pub no_content : R

pub record Bands (R : Type 0) : Type 0 where
  pub clear : R
  pub doubtful : R

pub record ScoringConfig (R : Type 0) : Type 0 where
  pub weights : Weights R
  pub thresholds : Thresholds R
  pub caps : Caps R
  pub bands : Bands R

-- DEFAULT_SCORING, in thousandths.
module _ (F : Float) where
  open F use {Carrier, thousandths}

  abbrev pub default_weights : Weights Carrier
  default_weights = record {
    content = thousandths 500;
    sharpness = thousandths 150;
    uniqueness = thousandths 250;
    metadata = thousandths 100;
  }

  abbrev pub default_thresholds : Thresholds Carrier
  default_thresholds = record {
    blur_floor = thousandths 40000;
    sharp_ok = thousandths 150000;
    dup_exact = pos 0;
    dup_near = pos 6;
    unique_distance = pos 12;
    plausibility_gate = pos 30;
    visit_context_gate = pos 35;
    no_visit_suspect_gate = pos 15;
  }

  abbrev pub default_caps : Caps Carrier
  default_caps = record {
    duplicate = thousandths 15000;
    near_duplicate = thousandths 55000;
    screen_recapture = thousandths 20000;
    designed_graphic = thousandths 20000;
    no_people = thousandths 30000;
    low_plausibility = thousandths 45000;
    weak_visit_context = thousandths 55000;
    not_a_visit = thousandths 20000;
    too_blurred = thousandths 55000;
    no_content = thousandths 69000;
  }

  abbrev pub default_bands : Bands Carrier
  default_bands = record { clear = thousandths 70000; doubtful = thousandths 40000 }

  abbrev pub default_scoring : ScoringConfig Carrier
  default_scoring = record {
    weights = default_weights;
    thresholds = default_thresholds;
    caps = default_caps;
    bands = default_bands;
  }
