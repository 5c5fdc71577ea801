-- ===== src/Engine/Verdicts.antt =====
-- src/prooflens/engine/verdicts.py: the bands, the reasons with their texts, and `most_severe`.
pub mod Severity
use prooflens.Base.{
  ℕ, String, ◌≡◌, refl, ap, ◌↔◌, Bool, true, false, ◌||◌, List, [], ◌∷◌, Option, none, some, ◌==◌,
  ==_iff, or_else, find, any,
}

pub data Band : Type 0 where
  clear doubtful suspect unassessed : Band

abbrev pub band_name : Band → String
band_name clear = "Clear"
band_name doubtful = "Doubtful"
band_name suspect = "Suspect"
band_name unassessed = "Unassessed"

-- BANDS, worst to best, and ALL_BANDS
abbrev pub graded_bands : List Band
graded_bands = suspect ∷ doubtful ∷ clear ∷ []

abbrev pub all_bands : List Band
all_bands = suspect ∷ doubtful ∷ clear ∷ unassessed ∷ []

pub data Reason : Type 0 where
  clear recycled screen_recapture designed_graphic no_people_or_irrelevant : Reason
  not_a_visit single_person no_visit_context too_blurred no_content_analysis : Reason

-- `.value`
abbrev pub reason_value : Reason → String
reason_value clear = "clear"
reason_value recycled = "recycled"
reason_value screen_recapture = "screen_recapture"
reason_value designed_graphic = "designed_graphic"
reason_value no_people_or_irrelevant = "no_people_or_irrelevant"
reason_value not_a_visit = "not_a_visit"
reason_value single_person = "single_person"
reason_value no_visit_context = "no_visit_context"
reason_value too_blurred = "too_blurred"
reason_value no_content_analysis = "no_content_analysis"

-- REASON_TEXT
abbrev pub reason_text : Reason → String
reason_text clear = "Clear — no capture-integrity issues found."
reason_text recycled = "Recycled image — matches a photo already submitted for this account."
reason_text screen_recapture = "Photo of another screen — screen edge and glare detected."
reason_text designed_graphic = "Designed graphic or screenshot, not a photo of a live scene."
reason_text no_people_or_irrelevant = "No people or relevant scene detected in the photo."
reason_text not_a_visit = "Not a customer visit — the scene shows no meeting or client interaction."
reason_text single_person = "Only one person in view — not evidence of a customer meeting."
reason_text no_visit_context = "No visit in progress — the photo shows no interaction or visit."
reason_text too_blurred = "Too blurred to assess — please retake in better light."
reason_text no_content_analysis = "Scored without content analysis — vision check unavailable."

-- REASON_SHORT_LABEL
abbrev pub reason_short_label : Reason → String
reason_short_label clear = "Clear"
reason_short_label recycled = "Recycled image"
reason_short_label screen_recapture = "Photo of a screen"
reason_short_label designed_graphic = "Designed graphic"
reason_short_label no_people_or_irrelevant = "No people in scene"
reason_short_label not_a_visit = "Not a visit"
reason_short_label single_person = "Only one person"
reason_short_label no_visit_context = "No visit in progress"
reason_short_label too_blurred = "Too blurred"
reason_short_label no_content_analysis = "Scored without content check"

-- The members of the enum in the order of declaration, which decides their equality.
abbrev pub ordinal : Reason → ℕ
ordinal clear = 0
ordinal recycled = 1
ordinal screen_recapture = 2
ordinal designed_graphic = 3
ordinal no_people_or_irrelevant = 4
ordinal not_a_visit = 5
ordinal single_person = 6
ordinal no_visit_context = 7
ordinal too_blurred = 8
ordinal no_content_analysis = 9

unfoldable pub same_reason : Reason → Reason → Bool
same_reason a b = ordinal a == ordinal b

abbrev pub reason_priority : List Reason
reason_priority =
    recycled ∷ screen_recapture ∷ designed_graphic ∷ no_people_or_irrelevant ∷ not_a_visit
    ∷ single_person ∷ no_visit_context ∷ too_blurred ∷ no_content_analysis ∷ clear ∷ []

-- `r in fired`
unfoldable pub has_reason : Reason → List Reason → Bool
unfolding same_reason
has_reason r fired = any (same_reason r) fired

-- The loop over REASON_PRIORITY
unfoldable pub first_fired : List Reason → List Reason → Option Reason
first_fired priority fired = find (λ r. has_reason r fired) priority

unfoldable pub most_severe : List Reason → Reason
unfolding first_fired has_reason
most_severe fired = or_else (first_fired reason_priority fired) clear
