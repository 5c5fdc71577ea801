-- ===== src/Engine/Summarize.antt =====
-- src/prooflens/engine/summarize.py: a decision in plain words. `textwrap.shorten` to 400
-- characters is an argument.
use prooflens.Base.{String, ◌&&◌, List, [], ◌∷◌, text_append, nonempty, strip, ◌==◌, if◌then◌else◌}
use Prim.Native.Char.{Char, code}
use prooflens.Engine.Verdicts.{Band, band_name, Reason}
use prooflens.Engine.Types.{CheckOutcome, Verdict}

-- _REASON_CLAUSE, which has every reason
abbrev pub reason_clause : Reason → String
reason_clause Reason.clear = "the capture looks like a genuine meeting"
reason_clause Reason.recycled =
    "the image is a near-duplicate of earlier submissions (reused imagery)"
reason_clause Reason.screen_recapture =
    "the frame is a photo of a screen, not a live camera capture"
reason_clause Reason.designed_graphic = "the image is a designed graphic / screenshot, not a photo"
reason_clause Reason.no_people_or_irrelevant =
    "no people are present or the scene is irrelevant to a visit"
reason_clause Reason.not_a_visit = "the scene does not read as a customer visit"
reason_clause Reason.single_person =
    "only one person is visible, so a two-party meeting can't be confirmed"
reason_clause Reason.no_visit_context = "people are present but no meeting interaction is evident"
reason_clause Reason.too_blurred = "the image is too blurred to assess"
reason_clause Reason.no_content_analysis = "the vision check was unavailable, so it was not graded"

-- `s.rstrip(".")`
abbrev dots_cons : Char → String → String
dots_cons c String.[] = if code c == 46 then "" else String.◌∷◌ c ""
dots_cons c (String.◌∷◌ d s) = String.◌∷◌ c (String.◌∷◌ d s)

unfoldable pub rstrip_dots : String → String
rstrip_dots String.[] = ""
rstrip_dots (String.◌∷◌ c s) = dots_cons c (rstrip_dots s)

abbrev pub body_for : Band → String → String
body_for Band.unassessed clause = text_append "Not graded — " (text_append clause ".")
body_for band clause =
    text_append "Scored "
      (text_append (band_name band) (text_append " because " (text_append clause ".")))

-- `f"{body} Detail: {ev}."`, where there is evidence
abbrev pub with_detail : String → String → String
with_detail body ev =
    if nonempty ev then text_append body (text_append " Detail: " (text_append ev ".")) else body

module _ {R : Type 0} where
  -- `_evidence`
  unfoldable pub evidence : List (CheckOutcome R) → String
  unfolding rstrip_dots
  evidence [] = ""
  evidence (c ∷ checks) =
      if c.available && nonempty c.summary then rstrip_dots (strip c.summary) else evidence checks

  abbrev pub body_of : Verdict R → String
  body_of v = body_for v.band (reason_clause v.reason_code)

  -- `summarize_decision`
  unfoldable pub summarize_decision : (String → String) → Verdict R → String
  summarize_decision shorten v = shorten (with_detail (body_of v) (evidence v.checks))
