-- ===== src/Vision/Tests.antt =====
-- The hybrid backend of src/prooflens/vision/hybrid.py with a Reasoner that is down.
use prooflens.Base.{ℕ, pos, ◌≡◌, refl, true, false, some}
use prooflens.Vision.Schema.{ContentAssessment, returned}
use prooflens.Vision.Hybrid.{unusable, HybridBackend, hybrid, judge, perceived}

abbrev handshake : ContentAssessment
handshake = record {
  people_count = pos 2;
  people_interacting = true;
  setting = "office";
  environment = "indoor";
  primary_subject = "two people";
  scene_description = "two people shake hands";
  emotional_tone = "engaged";
  looks_like_photo_of_a_screen = false;
  is_designed_graphic = false;
  is_meme_or_screenshot = false;
  plausibility = pos 80;
  visit_context = some (pos 75);
  context_confidence = "high";
  reason = "meeting";
  backend = "scout";
  model = "scout-1";
}

abbrev no_reasoner : HybridBackend ℕ
no_reasoner = record {
  name = "hybrid";
  scout_model = "scout-1";
  model = "scout-1+reasoner-1";
  scout_assess = λ n image. returned handshake;
  refine = λ p. unusable "timeout";
}

-- The answer is the Scout's, with the model named so.
reasoner_down :
    (hybrid no_reasoner).assess 0 7
    ≡ returned (record handshake { backend = "hybrid"; model = "scout-1 (reasoner-unavailable)" })
unfolding hybrid perceived judge
reasoner_down = refl
