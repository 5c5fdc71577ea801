-- ===== src/Engine/Types.antt =====
-- src/prooflens/engine/types.py: the value types. The free-form dict `CheckOutcome.data` is a
-- record of the keys that later code reads, each optional: a key that is absent is `none`. The raw
-- measurements that the recapture check reports beside its decision are left out.
use prooflens.Base.{ℕ, ℤ, String, Bool, List, Option, none}
use prooflens.Engine.Verdicts.{Band, Reason}

-- The "trail" entry of the uniqueness check.
pub record Trail : Type 0 where
  pub rep_id : Option String
  pub opportunity_id : Option String
  pub created_at : Option String

pub record Details : Type 0 where
  pub exact_duplicate : Option Bool
  pub near_duplicate : Option Bool
  pub dhash : Option String
  pub distance : Option ℕ
  pub trail : Option Trail
  pub screen_detected : Option Bool
  pub too_blurred : Option Bool
  pub looks_like_photo_of_a_screen : Option Bool
  pub is_designed_graphic : Option Bool
  pub is_meme_or_screenshot : Option Bool
  pub people_count : Option ℤ
  pub plausibility : Option ℤ
  pub visit_context : Option ℤ
  pub context_confidence : Option String
  pub is_real_backend : Option Bool
  pub has_timestamp : Option Bool
  pub has_gps : Option Bool
  pub skipped : Option Bool
  pub error : Option Bool
  pub detail : Option String

-- `{}`
abbrev pub no_details : Details
no_details = record {
  exact_duplicate = none;
  near_duplicate = none;
  dhash = none;
  distance = none;
  trail = none;
  screen_detected = none;
  too_blurred = none;
  looks_like_photo_of_a_screen = none;
  is_designed_graphic = none;
  is_meme_or_screenshot = none;
  people_count = none;
  plausibility = none;
  visit_context = none;
  context_confidence = none;
  is_real_backend = none;
  has_timestamp = none;
  has_gps = none;
  skipped = none;
  error = none;
  detail = none;
}

pub record CheckOutcome (R : Type 0) : Type 0 where
  pub name : String
  pub available : Bool
  pub score : Option R
  pub summary : String
  pub metric : Option R
  pub details : Details
  pub latency_ms : Option R

pub record Verdict (R : Type 0) : Type 0 where
  pub score : R
  pub band : Band
  pub reason : String
  pub reason_code : Reason
  pub checks : List (CheckOutcome R)
  pub rubric_version : String

pub record HashMatch : Type 0 where
  pub match_distance : ℕ
  pub match_dhash : String
  pub match_rep_id : Option String
  pub match_opportunity_id : Option String
  pub match_created_at : Option String
