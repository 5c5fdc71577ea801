-- ===== src/Engine/Fusion/Bands.antt =====
-- The band and the reason that `fuse` (src/prooflens/engine/fusion/fuse.py) reports.
use prooflens.Base.{
  ℕ, ◌≤◌, ◌<◌, ◌*◌, ◌≡◌, refl, sym, ap, ◌∙◌, subst, ◌≢◌, ◌↔◌, ◌⊎◌, inl, inr, true, false, List, [],
  ◌∷◌, some, arith, In, lookup, string_eq, List-cases,
}
use prooflens.Engine.Number.{Float, lt}
use prooflens.Engine.Config.{ScoringConfig, default_scoring}
use prooflens.Engine.Types.{CheckOutcome}
use prooflens.Engine.Verdicts.{
  Band, Reason, clear, recycled, no_content_analysis, same_reason, most_severe,
}
use prooflens.Engine.Verdicts.Severity.{
  severity, most_severe_first, most_severe-nil, same_reason→eq, same_reason_refl,
}
use prooflens.Engine.Fusion.{
  gates, by_name, reasons_of, FusionResult, clamp_score, band_for, final_band, fuse,
}
use prooflens.Engine.Fusion.Capped.{fuse-capped}
use prooflens.Engine.Fusion.Fired.{gates-ne-clear, gates-unavailable, gates-duplicate}

least_severe :
    (r : Reason)
    → severity no_content_analysis ≤ severity r
    → (r ≡ no_content_analysis) ⊎ (r ≡ clear)
unfolding same_reason
least_severe r h = ground arith

recycled_severest : (r : Reason) → severity r ≤ severity recycled → r ≡ recycled
unfolding same_reason
recycled_severest r h = ground arith

recycled_outranks : severity recycled < severity no_content_analysis
unfolding same_reason
recycled_outranks = omega arith

only_no_content :
    (rs : List Reason)
    → ¬ In clear rs
    → most_severe rs ≡ no_content_analysis
    → (r : Reason) → In r rs
    → r ≡ no_content_analysis
only_no_content rs not_clear e r m =
    let first = (most_severe_first rs r m).1 in
    elim (least_severe r (subst (λ q. severity q ≤ severity r) e first)) [
      | inl same ↦ same
      | inr c ↦ absurd (not_clear (subst (λ q. In q rs) c m))
    ]

no_content-fired :
    (rs : List Reason) → most_severe rs ≡ no_content_analysis → In no_content_analysis rs
no_content-fired [] e = cc most_severe-nil
no_content-fired (r ∷ rs) e =
    subst (λ q. In q (r ∷ rs)) e (most_severe_first (r ∷ rs) r (inl refl)).0

In-reasons_of :
    {R : Type 0} (r : Reason) (x : R) (gs : List (Reason × R)) → In (r, x) gs → In r (reasons_of gs)
In-reasons_of r x [] m = m
In-reasons_of {R} r x (g ∷ gs) (inl e) = inl (ap (λ (p : Reason × R). p.0) e)
In-reasons_of r x (g ∷ gs) (inr m) = inr (In-reasons_of r x gs m)

module _ (F : Float) where
  open F use {Carrier, le, thousandths, le_trans, le_total}

  final_band-unassessed :
      (r : Reason) (s : Carrier) (cfg : ScoringConfig Carrier)
      → (final_band F r s cfg ≡ Band.unassessed) ↔ (r ≡ no_content_analysis)
  unfolding final_band band_for
  final_band-unassessed r s cfg =
      (λ h. ground (arith, same_reason→eq r no_content_analysis), λ e. rw e (rw same_reason_refl))

  final_band-suspect :
      (r : Reason) (s y : Carrier) (cfg : ScoringConfig Carrier)
      → r ≢ no_content_analysis
      → le s y ≡ true
      → lt F y cfg.bands.doubtful ≡ true
      → le cfg.bands.doubtful cfg.bands.clear ≡ true
      → final_band F r s cfg ≡ Band.suspect
  unfolding final_band band_for
  final_band-suspect r s y cfg ne h below order = ground (
    arith,
    same_reason→eq r no_content_analysis,
    le_trans cfg.bands.doubtful s y,
    le_trans cfg.bands.doubtful cfg.bands.clear s,
  )

  final_band-ne-clear :
      (r : Reason) (s y : Carrier) (cfg : ScoringConfig Carrier)
      → le s y ≡ true
      → lt F y cfg.bands.clear ≡ true
      → final_band F r s cfg ≢ Band.clear
  unfolding final_band band_for
  final_band-ne-clear r s y cfg h below = ground (arith, le_trans cfg.bands.clear s y)

  -- A whole number of tenths up to 100 is neither rounded nor clamped.
  clamp_score_exact :
      (n : ℕ) → n ≤ 1000 → clamp_score F (thousandths (n * 100)) ≡ thousandths (n * 100)
  unfolding clamp_score
  clamp_score_exact n h = ground (
    arith,
    F.round1-thousandths n,
    F.le-thousandths 100000 (n * 100),
    F.le-thousandths (n * 100) 0,
  )

  module _ (outcomes : List (CheckOutcome Carrier)) (cfg : ScoringConfig Carrier) where
    abbrev fired : List (Reason × Carrier)
    fired = gates (by_name outcomes) cfg

    abbrev result : FusionResult Carrier
    result = fuse F outcomes cfg

    -- What `fuse` reports is the most severe of the reasons that fired.
    fuse-reason : result.reason_code ≡ most_severe (reasons_of fired)
    unfolding fuse
    fuse-reason = refl

    fuse-band : result.band ≡ final_band F result.reason_code result.score cfg
    unfolding fuse
    fuse-band = refl

    -- `clear` is reported exactly where no gate fired.
    pub fuse-clear_iff : (result.reason_code ≡ clear) ↔ (fired ≡ [])
    fuse-clear_iff = (
      λ h. elim (List-cases fired) [
        | inl e ↦ e
        | inr (g, rest, e) ↦ absurd (
            gates-ne-clear (by_name outcomes) cfg (
              subst (λ r. In r (reasons_of fired)) (sym fuse-reason ∙ h)
                (most_severe_first (reasons_of fired) g.0
                  (subst (λ l. In g.0 (reasons_of l)) (sym e) (inl refl))).0))
      ],
      λ e. fuse-reason ∙ ap (λ l. most_severe (reasons_of l)) e ∙ most_severe-nil,
    )

    -- The band is `Unassessed` exactly where the missing vision check is the only thing that
    -- fired: it fired, and every gate that fired names it.
    pub fuse-unassessed_iff : (result.band ≡ Band.unassessed) ↔ (
        In no_content_analysis (reasons_of fired)
        × ((r : Reason) → In r (reasons_of fired) → r ≡ no_content_analysis))
    fuse-unassessed_iff = (
      λ h.
          let e = sym fuse-reason ∙ (final_band-unassessed _ _ cfg).0 (sym fuse-band ∙ h) in
          (
            no_content-fired (reasons_of fired) e,
            only_no_content (reasons_of fired) (gates-ne-clear (by_name outcomes) cfg) e,
          ),
      λ (m, only).
          fuse-band
          ∙ (final_band-unassessed _ _ cfg).1
              (fuse-reason ∙ only _ (most_severe_first (reasons_of fired) no_content_analysis m).0),
    )

    -- A fired gate that outranks the missing vision check, and whose rounded cap lies below the
    -- Doubtful threshold, makes the band Suspect.
    fuse-suspect :
        (r : Reason) (x : Carrier)
        → In (r, x) fired
        → severity r < severity no_content_analysis
        → lt F (clamp_score F x) cfg.bands.doubtful ≡ true
        → le cfg.bands.doubtful cfg.bands.clear ≡ true
        → result.band ≡ Band.suspect
    fuse-suspect r x m rank below order =
        let first = (most_severe_first (reasons_of fired) r (In-reasons_of r x fired m)).1 in
        fuse-band
        ∙ final_band-suspect _ _ (clamp_score F x) cfg
            (λ e.
              absurd
                (omega (arith, subst (λ q. severity q ≤ severity r) (sym fuse-reason ∙ e) first)))
            ((fuse-capped F outcomes cfg).2 r x m) below order

    -- Without a vision check the band is never Clear, whatever else fired, as long as the rounded
    -- cap for that case lies below the Clear threshold.
    pub fuse-unavailable_ne_clear :
        (c : CheckOutcome Carrier)
        → lookup "content" (by_name outcomes) ≡ some c
        → c.available ≡ false
        → lt F (clamp_score F cfg.caps.no_content) cfg.bands.clear ≡ true
        → result.band ≢ Band.clear
    fuse-unavailable_ne_clear c known off below h =
        final_band-ne-clear _ _ (clamp_score F cfg.caps.no_content) cfg
          ((fuse-capped F outcomes cfg).2 _ _
            (gates-unavailable (by_name outcomes) c cfg known off))
          below (sym fuse-band ∙ h)

  -- Under the default configuration an exact duplicate is reported as recycled, is Suspect, and
  -- scores at most 15, whatever the other checks say.
  pub fuse-exact_duplicate :
      (outcomes : List (CheckOutcome Carrier)) (c : CheckOutcome Carrier)
      → lookup "uniqueness" (by_name outcomes) ≡ some c
      → c.available ≡ true
      → c.details.exact_duplicate ≡ some true
      → let r = fuse F outcomes (default_scoring F) in
        (r.reason_code ≡ recycled)
        × (r.band ≡ Band.suspect)
        × (le r.score (thousandths 15000) ≡ true)
  fuse-exact_duplicate outcomes c known on dup =
      let m = gates-duplicate (by_name outcomes) c (default_scoring F) known on dup in
      let fires =
        In-reasons_of recycled (thousandths 15000) (gates (by_name outcomes) (default_scoring F))
          m in
      (
        fuse-reason outcomes (default_scoring F)
            ∙ recycled_severest _ (most_severe_first _ recycled fires).1,
        fuse-suspect outcomes (default_scoring F) recycled (thousandths 15000) m recycled_outranks
            (rw (clamp_score_exact 150 (omega arith)) (rw F.le-thousandths refl))
            (F.le-thousandths 40000 70000),
        subst (λ y. le (fuse F outcomes (default_scoring F)).score y ≡ true)
            (clamp_score_exact 150 (omega arith))
            ((fuse-capped F outcomes (default_scoring F)).2 recycled (thousandths 15000) m),
      )
