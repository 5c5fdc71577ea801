-- ===== src/Vision/Schema.antt =====
-- src/prooflens/vision/schema.py and base.py: the validated assessment and the backend protocol.
use prooflens.Base.{ℕ, ℤ, String, Bool, false, ◌||◌, Option, nonempty, if◌then◌else◌}

-- What is left of `ContentAssessment` after its validators have run.
pub record ContentAssessment : Type 0 where
  pub people_count : ℤ
  pub people_interacting : Bool
  pub setting : String
  pub environment : String
  pub primary_subject : String
  pub scene_description : String
  pub emotional_tone : String
  pub looks_like_photo_of_a_screen : Bool
  pub is_designed_graphic : Bool
  pub is_meme_or_screenshot : Bool
  pub plausibility : ℤ
  pub visit_context : Option ℤ
  pub context_confidence : String
  pub reason : String
  pub backend : String
  pub model : String

abbrev pub has_red_flag : ContentAssessment → Bool
has_red_flag a = a.looks_like_photo_of_a_screen || a.is_designed_graphic || a.is_meme_or_screenshot

-- A call that may raise; the error keeps `str(exc)`.
pub data Attempt {ℓ} (A : Type ℓ) : Type ℓ where
  returned : A → Attempt A
  raised : String → Attempt A

-- The protocol VisionBackend. A real backend answers each call anew, so `assess` takes the number
-- of the call.
pub record VisionBackend (Bytes : Type 0) : Type 0 where
  pub name : String
  pub is_real : Bool
  pub assess : ℕ → Bytes → Attempt ContentAssessment

-- vision/unavailable.py: every call raises.
abbrev pub unavailable_vision : {Bytes : Type 0} → String → VisionBackend Bytes
unavailable_vision why = record {
  name = "unavailable";
  is_real = false;
  assess = λ n bytes. raised (if nonempty why then why else "vision backend unavailable");
}
