-- ===== src/Vision/Hybrid.antt =====
-- src/prooflens/vision/hybrid.py: a perception by the Scout and a judgment by the Reasoner. Both
-- are arguments. The names of the backend and of the models are those of the constructor.
pub mod Degraded
use prooflens.Base.{ℕ, ℤ, String, true, Option, text_append}
use prooflens.Vision.Schema.{ContentAssessment, Attempt, returned, raised, VisionBackend}

pub record Judgment : Type 0 where
  pub plausibility : ℤ
  pub visit_context : Option ℤ
  pub context_confidence : String
  pub reason : String

-- How `refine` ends: a judgment, one of the exceptions that `assess` handles, or another one.
pub data Refined : Type 0 where
  judged : Judgment → Refined
  unusable : String → Refined
  crashed : String → Refined

pub record HybridBackend (Bytes : Type 0) : Type 0 where
  pub name : String
  pub scout_model : String
  pub model : String
  pub scout_assess : ℕ → Bytes → Attempt ContentAssessment
  pub refine : ContentAssessment → Refined

module _ {Bytes : Type 0} (h : HybridBackend Bytes) where
  -- The perception with the Reasoner's judgment
  abbrev pub with_judgment : ContentAssessment → Judgment → ContentAssessment
  with_judgment p j = record p {
    plausibility = j.plausibility;
    visit_context = j.visit_context;
    context_confidence = j.context_confidence;
    reason = j.reason;
    backend = h.name;
    model = h.model;
  }

  -- The perception with the Scout's own judgment
  abbrev pub scout_only : ContentAssessment → ContentAssessment
  scout_only p = record p {
    backend = h.name;
    model = text_append h.scout_model " (reasoner-unavailable)";
  }

  -- Stage 2 on a perception
  unfoldable pub judge : ContentAssessment → Refined → Attempt ContentAssessment
  judge p (judged j) = returned (with_judgment p j)
  judge p (unusable e) = returned (scout_only p)
  judge p (crashed e) = raised e

  unfoldable pub perceived : Attempt ContentAssessment → Attempt ContentAssessment
  perceived (raised e) = raised e
  perceived (returned p) = judge p (h.refine p)

  -- `HybridBackend.assess`, as a backend
  unfoldable pub hybrid : VisionBackend Bytes
  hybrid = record {
    name = h.name;
    is_real = true;
    assess = λ n image. perceived (h.scout_assess n image);
  }
