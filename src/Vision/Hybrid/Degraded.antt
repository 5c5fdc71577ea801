-- ===== src/Vision/Hybrid/Degraded.antt =====
-- src/prooflens/vision/hybrid.py with a Reasoner that is down, as src/prooflens/engine/pipeline.py
-- sees it.
use prooflens.Base.{ℕ, String, ◌≡◌, true}
use prooflens.Vision.Schema.{ContentAssessment, Attempt, returned, raised, VisionBackend}
use prooflens.Vision.Hybrid.{HybridBackend, unusable}
use prooflens.Engine.Imaging.{Imaging}

-- `self.scout`, as a backend of its own
abbrev pub scout : {Bytes : Type 0} → HybridBackend Bytes → VisionBackend Bytes
scout h = record { name = "scout"; is_real = true; assess = h.scout_assess }

-- The Reasoner fails on every perception, in one of the ways that `assess` handles.
abbrev pub IsDown : {Bytes : Type 0} → HybridBackend Bytes → Type 0
IsDown h = (p : ContentAssessment) → (e : String) × (h.refine p ≡ unusable e)

abbrev answers :
    Attempt ContentAssessment → Attempt ContentAssessment → Attempt ContentAssessment × ℕ
answers (returned a) second = (returned a, 1)
answers (raised e) second = (second, 2)
