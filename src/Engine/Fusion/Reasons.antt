-- ===== src/Engine/Fusion/Reasons.antt =====
-- The reasons that each gate of `_gates` (src/prooflens/engine/fusion/fuse.py) can give.
use prooflens.Base.{
  String, ◌≡◌, refl, ◌⊎◌, inl, inr, true, false, List, [], ◌∷◌, ◌++◌, Option, none, some, arith, In,
  Dict, lookup, string_eq, In-append_cases,
}
use prooflens.Engine.Config.{ScoringConfig, Caps}
use prooflens.Engine.Types.{CheckOutcome, Details}
use prooflens.Engine.Verdicts.{
  Reason, recycled, screen_recapture, designed_graphic, no_people_or_irrelevant, not_a_visit,
  single_person, no_visit_context, too_blurred, no_content_analysis,
}
use prooflens.Engine.Fusion.{
  when_available, uniqueness_gates, recapture_gates, sharpness_gates, people_gates, confident_gates,
  meeting_gates, assessed_gates, content_gates, gates, reasons_of, capture_gates,
}

-- What an assessed image can be flagged for.
abbrev pub IsContentReason : Reason → Type 0
IsContentReason r =
    (r ≡ screen_recapture)
    ⊎ (r ≡ designed_graphic)
    ⊎ (r ≡ no_people_or_irrelevant)
    ⊎ (r ≡ not_a_visit)
    ⊎ (r ≡ single_person)
    ⊎ (r ≡ no_visit_context)

module _ {R : Type 0} where
  pub reasons_of-append :
      (xs ys : List (Reason × R)) → reasons_of (xs ++ ys) ≡ reasons_of xs ++ reasons_of ys
  reasons_of-append [] ys = refl
  reasons_of-append (x ∷ xs) ys = rw (reasons_of-append xs ys)

  -- A reason of a joined list is one of either part.
  pub reason-append :
      (r : Reason) (xs ys : List (Reason × R))
      → In r (reasons_of (xs ++ ys))
      → In r (reasons_of xs) ⊎ In r (reasons_of ys)
  reason-append r xs ys m =
      In-append_cases r (reasons_of xs) (reasons_of ys) (rw (reasons_of-append xs ys) at m)

  -- Each part of `gates` fires reasons of its own.
  pub uniqueness-reasons :
      (r : Reason) (o : Option Details) (caps : Caps R)
      → In r (reasons_of (uniqueness_gates o caps))
      → r ≡ recycled
  unfolding uniqueness_gates
  uniqueness-reasons r none caps m = absurd m
  uniqueness-reasons r (some d) caps m = ground arith

  pub recapture-reasons :
      (r : Reason) (o : Option Details) (caps : Caps R)
      → In r (reasons_of (recapture_gates o caps))
      → r ≡ screen_recapture
  unfolding recapture_gates
  recapture-reasons r none caps m = absurd m
  recapture-reasons r (some d) caps m = ground arith

  pub sharpness-reasons :
      (r : Reason) (o : Option Details) (caps : Caps R)
      → In r (reasons_of (sharpness_gates o caps))
      → r ≡ too_blurred
  unfolding sharpness_gates
  sharpness-reasons r none caps m = absurd m
  sharpness-reasons r (some d) caps m = ground arith

  pub people-reasons :
      (r : Reason) (d : Details) (cfg : ScoringConfig R)
      → In r (reasons_of (people_gates d cfg))
      → r ≡ no_people_or_irrelevant
  unfolding people_gates
  people-reasons r d cfg m = ground arith

  pub meeting-reasons :
      (r : Reason) (d : Details) (cfg : ScoringConfig R)
      → In r (reasons_of (meeting_gates d cfg))
      → (r ≡ not_a_visit) ⊎ (r ≡ single_person) ⊎ (r ≡ no_visit_context)
  unfolding meeting_gates confident_gates
  meeting-reasons r d cfg m = ground arith

  pub capture-reasons :
      (r : Reason) (d : Details) (cfg : ScoringConfig R)
      → In r (reasons_of (capture_gates d cfg))
      → (r ≡ screen_recapture) ⊎ (r ≡ designed_graphic)
  unfolding capture_gates
  capture-reasons r d cfg m = ground arith

  pub assessed-reasons :
      (r : Reason) (d : Details) (cfg : ScoringConfig R)
      → In r (reasons_of (assessed_gates d cfg))
      → IsContentReason r
  unfolding assessed_gates
  assessed-reasons r d cfg m = elim (reason-append r (capture_gates d cfg) _ m) [
    | inl a ↦ ground (arith, capture-reasons r d cfg a)
    | inr a ↦ elim (reason-append r (people_gates d cfg) _ a) [
      | inl b ↦ ground (arith, people-reasons r d cfg b)
      | inr b ↦ ground (arith, meeting-reasons r d cfg b)
    ]
  ]

  pub content-reasons :
      (r : Reason) (o : Option (CheckOutcome R)) (cfg : ScoringConfig R)
      → In r (reasons_of (content_gates o cfg))
      → (c : CheckOutcome R) × (o ≡ some c)
        × (((c.available ≡ true) × In r (reasons_of (assessed_gates c.details cfg)))
            ⊎ ((c.available ≡ false) × (r ≡ no_content_analysis)))
  unfolding content_gates
  content-reasons r none cfg m = absurd m
  content-reasons r (some c) cfg m = (c, refl, ground arith)

  -- Who fires what: a reason of `gates` comes from the check that it names.
  pub gates-reasons :
      (r : Reason) (checks : Dict String (CheckOutcome R)) (cfg : ScoringConfig R)
      → In r (reasons_of (gates checks cfg))
      → (r ≡ recycled)
        ⊎ (r ≡ screen_recapture)
        ⊎ (r ≡ too_blurred)
        ⊎ In r (reasons_of (content_gates (lookup "content" checks) cfg))
  unfolding gates
  gates-reasons r checks cfg m =
      let u = uniqueness_gates (when_available (lookup "uniqueness" checks)) cfg.caps in
      let v = recapture_gates (when_available (lookup "recapture" checks)) cfg.caps in
      let w = content_gates (lookup "content" checks) cfg in
      let x = sharpness_gates (when_available (lookup "sharpness" checks)) cfg.caps in
      elim (reason-append r u (v ++ (w ++ x)) m) [
        | inl a ↦ inl (uniqueness-reasons r _ _ a)
        | inr a ↦ elim (reason-append r v (w ++ x) a) [
          | inl b ↦ inr (inl (recapture-reasons r _ _ b))
          | inr b ↦ elim (reason-append r w x b) [
            | inl c ↦ inr (inr (inr c))
            | inr c ↦ inr (inr (inl (sharpness-reasons r _ _ c)))
          ]
        ]
      ]
