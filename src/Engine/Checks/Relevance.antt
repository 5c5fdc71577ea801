-- ===== src/Engine/Checks/Relevance.antt =====
-- src/prooflens/engine/checks/relevance.py: the content check, which calls the vision backend at
-- most twice and is unavailable where both calls raise.
use prooflens.Base.{
  ℕ, String, Bool, true, false, none, some, or_else, strip, nonempty, text_append, text_take,
  show_int, if◌then◌else◌,
}
use prooflens.Engine.Number.{Float, fmin}
use prooflens.Engine.Types.{CheckOutcome, Details, no_details}
use prooflens.Vision.Schema.{
  ContentAssessment, has_red_flag, Attempt, returned, raised, VisionBackend,
}

-- The `for _ in range(2)` loop: the assessment or the last error, with the number of calls made.
unfoldable pub ask_twice :
    {Bytes : Type 0} → VisionBackend Bytes → Bytes → Attempt ContentAssessment × ℕ
ask_twice vision image = elim (vision.assess 0 image) [
  | returned a ↦ (returned a, 1)
  | raised e ↦ (vision.assess 1 image, 2)
]

-- `assessment.model_dump()` with `is_real_backend`, as far as later code reads it.
abbrev pub assessment_details : ContentAssessment → Bool → Details
assessment_details a real = record no_details {
  looks_like_photo_of_a_screen = some a.looks_like_photo_of_a_screen;
  is_designed_graphic = some a.is_designed_graphic;
  is_meme_or_screenshot = some a.is_meme_or_screenshot;
  people_count = some a.people_count;
  plausibility = some a.plausibility;
  visit_context = a.visit_context;
  context_confidence = some a.context_confidence;
  is_real_backend = some real;
}

abbrev pub assessment_summary : ContentAssessment → Bool → String
assessment_summary a real =
    let scene = strip a.scene_description in
    let told =
      if nonempty scene
      then scene
      else text_append (show_int a.people_count) (text_append " person(s), setting=" a.setting) in
    if real then told else text_append told " [STUB]"

module _ (F : Float) where
  open F use {Carrier, add, mul, of_int, thousandths, round1}

  -- The soft score: 0.6 of plausibility and 0.4 of the visit context, at most 25 under a red flag.
  unfoldable pub content_score : ContentAssessment → Carrier
  content_score a =
      let vc = or_else a.visit_context a.plausibility in
      let s =
        add (mul (thousandths 600) (of_int a.plausibility)) (mul (thousandths 400) (of_int vc)) in
      if has_red_flag a then fmin F s (thousandths 25000) else s

  unfoldable pub content_outcome : Attempt ContentAssessment → Bool → CheckOutcome Carrier
  content_outcome (raised e) real = record {
    name = "content";
    available = false;
    score = none;
    summary = text_append "Vision check unavailable: " (text_take 120 e);
    metric = none;
    details = record no_details { error = some true; detail = some e };
    latency_ms = none;
  }
  content_outcome (returned a) real = record {
    name = "content";
    available = true;
    score = some (round1 (content_score a));
    summary = assessment_summary a real;
    metric = some (of_int a.plausibility);
    details = assessment_details a real;
    latency_ms = none;
  }

  unfoldable pub relevance_run :
      {Bytes : Type 0} → VisionBackend Bytes → Bytes → CheckOutcome Carrier × ℕ
  relevance_run vision image =
      let (answer, calls) = ask_twice vision image in (content_outcome answer vision.is_real, calls)
