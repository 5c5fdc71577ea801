-- ===== src/Engine/Pipeline/Recycled.antt =====
-- A photo that was scored before, through `score` of src/prooflens/engine/pipeline.py.
use prooflens.Base.{
  String, ◌≡◌, sym, ap, ◌∙◌, subst, true, [], ◌∷◌, ◌++◌, some, arith, string_eq, nonempty,
}
use prooflens.Engine.Number.{Float}
use prooflens.Engine.Config.{ScoringConfig, default_scoring}
use prooflens.Engine.Types.{HashMatch}
use prooflens.Engine.Verdicts.{Band, recycled}
use prooflens.Engine.Fusion.{fuse}
use prooflens.Engine.Fusion.Bands.{fuse-exact_duplicate}
use prooflens.Engine.Imaging.{Imaging}
use prooflens.Engine.Checks.{compute_dhash, judge_match, uniqueness_run}
use prooflens.Engine.Checks.Named.{uniqueness_run-hashed, judge_match-exact}
use prooflens.Engine.Pipeline.{
  HashStore, Context, Times, free_hard_gate_fired, content_check, remember_after, row_of, score,
}
use prooflens.Engine.Pipeline.Steps.{free, content, lookup_checks, dhash_of-hashed}

module _ (F : Float) (I : Imaging F.Carrier) (H : HashStore) (image : I.Bytes) (h : String) where
  -- What `score` leaves in the store when it is told to remember.
  score-remembers :
      (t : Times F I H) (ctx : Context F.Carrier I.Bytes) (s : H.Store)
      → compute_dhash F I image ≡ some h
      → nonempty h ≡ true
      → ctx.remember_hash ≡ true
      → (score F I H t image ctx s).1 ≡ H.remember ctx.tenant_id (row_of F I H ctx h) s
  unfolding score remember_after
  score-remembers t ctx s e full on =
      ap (λ o. remember_after F I H ctx o s) (dhash_of-hashed F I H t image ctx s h e full) ∙ rw on

  module _ (t : Times F I H) (ctx : Context F.Carrier I.Bytes) (s : H.Store) (m : HashMatch) where
    -- The uniqueness check of an image whose hash the store has at distance 0.
    exact_details :
        compute_dhash F I image ≡ some h
        → H.nearest ctx.tenant_id h s ≡ some m
        → m.match_distance ≡ 0
        → ctx.scoring ≡ default_scoring F
        → let c =
            uniqueness_run F I image (λ q. H.nearest ctx.tenant_id q s) ctx.scoring.thresholds in
          (c.details.exact_duplicate ≡ some true) × (c.available ≡ true)
    exact_details e near zero_distance default =
        rw
          (uniqueness_run-hashed F I image (λ q. H.nearest ctx.tenant_id q s) ctx.scoring.thresholds
            h e)
          (rw near (
            subst
              (λ (cfg : ScoringConfig F.Carrier).
                ((judge_match F h (some m) cfg.thresholds).details.exact_duplicate ≡ some true)
                × ((judge_match F h (some m) cfg.thresholds).available ≡ true))
              (sym default)
              (judge_match-exact F h m (default_scoring F).thresholds (ground arith))))

    free_gate :
        compute_dhash F I image ≡ some h
        → H.nearest ctx.tenant_id h s ≡ some m
        → m.match_distance ≡ 0
        → ctx.scoring ≡ default_scoring F
        → free_hard_gate_fired (free F I H t image ctx s) ≡ true
    unfolding free_hard_gate_fired
    free_gate e near zero_distance default =
        let (dup, on) = exact_details e near zero_distance default in
        rw (lookup_checks F I H t image ctx s).0 (rw on (rw dup))

    -- An image whose hash the store finds at distance 0 is reported as recycled under the default
    -- configuration: Suspect, at most 15 points, and with no paid vision call.
    score-duplicate :
        compute_dhash F I image ≡ some h
        → H.nearest ctx.tenant_id h s ≡ some m
        → m.match_distance ≡ 0
        → ctx.scoring ≡ default_scoring F
        → let (v, s', calls) = score F I H t image ctx s in
          (v.reason_code ≡ recycled)
          × (v.band ≡ Band.suspect)
          × (F.le v.score (F.thousandths 15000) ≡ true)
          × (calls ≡ 0)
    unfolding score content_check
    score-duplicate e near zero_distance default =
        let (dup, on) = exact_details e near zero_distance default in
        let outcomes = free F I H t image ctx s ++ (content F I H t image ctx s ∷ []) in
        let (reason, band, capped) =
          fuse-exact_duplicate F outcomes _ (lookup_checks F I H t image ctx s).1 on dup in
        (
          ap (λ cfg. (fuse F outcomes cfg).reason_code) default ∙ reason,
          ap (λ cfg. (fuse F outcomes cfg).band) default ∙ band,
          subst (λ cfg. F.le (fuse F outcomes cfg).score (F.thousandths 15000) ≡ true) (sym default)
              capped,
          rw (free_gate e near zero_distance default),
        )

  -- A photo that was scored once and remembered is caught when the same tenant sends it again:
  -- under the default configuration the second verdict is recycled and Suspect, at most 15 points,
  -- whatever the vision backends of the two calls say, and the second call pays for no vision.
  -- The photo must have a perceptual hash.
  pub score_twice-recycled :
      (t t' : Times F I H) (ctx ctx' : Context F.Carrier I.Bytes) (s : H.Store)
      → compute_dhash F I image ≡ some h
      → nonempty h ≡ true
      → ctx.remember_hash ≡ true
      → ctx'.tenant_id ≡ ctx.tenant_id
      → ctx'.scoring ≡ default_scoring F
      → let (v, s'', calls) = score F I H t' image ctx' (score F I H t image ctx s).1 in
        (v.reason_code ≡ recycled)
        × (v.band ≡ Band.suspect)
        × (F.le v.score (F.thousandths 15000) ≡ true)
        × (calls ≡ 0)
  score_twice-recycled t t' ctx ctx' s e full on same default =
      let (m, near, zero_distance) = H.found_again ctx.tenant_id (row_of F I H ctx h) s in
      let after : H.Store = (score F I H t image ctx s).1 in
      score-duplicate t' ctx' after m e
        (ap (λ (id : String). H.nearest id h after) same
          ∙ ap (H.nearest ctx.tenant_id h) (score-remembers t ctx s e full on)
          ∙ near)
        zero_distance default
