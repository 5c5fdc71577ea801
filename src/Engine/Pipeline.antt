-- ===== src/Engine/Pipeline.antt =====
-- src/prooflens/engine/pipeline.py: `score`, over the hash store's interface of engine/types.py.
pub mod Steps
pub mod Recycled
pub mod InMemory
use prooflens.Base.{
  ℕ, suc, String, ◌≡◌, ◌≢◌, Bool, true, false, ◌&&◌, ◌||◌, List, [], ◌∷◌, ◌++◌, Option, none, some,
  Dict, lookup, string_eq, truthy, nonempty, str_eq, find, if◌then◌else◌,
}
use prooflens.Engine.Number.{Float}
use prooflens.Engine.Config.{ScoringConfig}
use prooflens.Engine.Types.{CheckOutcome, Details, no_details, Verdict, HashMatch}
use prooflens.Engine.Fusion.{by_name, when_available, FusionResult, fuse}
use prooflens.Engine.Imaging.{Imaging, load_gray}
use prooflens.Engine.HashStore.{Row}
use prooflens.Engine.Checks.{outcome, blur_run, exif_run, recapture_run, uniqueness_run}
use prooflens.Engine.Checks.Relevance.{relevance_run}
use prooflens.Vision.Schema.{VisionBackend}

-- The protocol HashStore as operations on a state, with what the engine relies on: a remembered
-- hash is found again at distance 0, and other tenants do not see it.
pub record HashStore : Type 1 where
  pub Store : Type 0
  pub nearest : String → String → Store → Option HashMatch
  pub remember : String → Row → Store → Store
  pub found_again :
      (tenant_id : String) (r : Row) (s : Store)
      → (m : HashMatch) × (nearest tenant_id r.dhash (remember tenant_id r s) ≡ some m)
        × (m.match_distance ≡ 0)
  pub isolated :
      (tenant_id : String) (r : Row) (s : Store) (other h : String)
      → tenant_id ≢ other
      → nearest other h (remember tenant_id r s) ≡ nearest other h s

-- EngineContext, less the hash store, which is threaded as a state.
pub record Context (R Bytes : Type 0) : Type 0 where
  pub tenant_id : String
  pub vision : VisionBackend Bytes
  pub scoring : ScoringConfig R
  pub rep_id : Option String
  pub opportunity_id : Option String
  pub captured_at : Option String
  pub remember_hash : Bool

abbrev pub rubric_version : String
rubric_version = "v3"

abbrev pub flag_of : Option Details → (Details → Bool) → Bool
flag_of none f = false
flag_of (some d) f = f d

abbrev pub filled : Option String → Option String
filled none = none
filled (some h) = if nonempty h then some h else none

module _ {R : Type 0} where
  -- `_timed`, with the time that the check took.
  abbrev pub timed : R → CheckOutcome R → CheckOutcome R
  timed elapsed c = record c { latency_ms = some elapsed }

  -- `_free_hard_gate_fired`
  unfoldable pub free_hard_gate_fired : List (CheckOutcome R) → Bool
  free_hard_gate_fired outcomes =
      let checks = by_name outcomes in
      flag_of (when_available (lookup "uniqueness" checks)) (λ d. truthy d.exact_duplicate)
      || flag_of (when_available (lookup "recapture" checks)) (λ d. truthy d.screen_detected)

  abbrev pub skipped_content : CheckOutcome R
  skipped_content =
      outcome "content" false none "Skipped — a free hard gate already rejected the image." none
        (record no_details { skipped = some true })

  -- `dhash = uniq.data.get("dhash") if uniq else None`, and `if dhash`
  abbrev pub dhash_in : Option (CheckOutcome R) → Option String
  dhash_in none = none
  dhash_in (some c) = filled c.details.dhash

  unfoldable pub dhash_of : List (CheckOutcome R) → Option String
  dhash_of outcomes = dhash_in (find (λ c. str_eq c.name "uniqueness") outcomes)

module _ (F : Float) (I : Imaging F.Carrier) (H : HashStore) where
  -- The times that the checks take, by their place in the pipeline.
  abbrev pub Times : Type 0
  Times = ℕ → F.Carrier

  -- The four free checks, in order.
  unfoldable pub free_checks :
      Times → I.Bytes → Context F.Carrier I.Bytes → H.Store → List (CheckOutcome F.Carrier)
  free_checks t image ctx s =
      let gray = load_gray I image in
      timed (t 0) (exif_run F I image)
      ∷ timed (t 1) (blur_run F I gray ctx.scoring.thresholds)
      ∷ timed (t 2)
          (uniqueness_run F I image (λ h. H.nearest ctx.tenant_id h s) ctx.scoring.thresholds)
      ∷ timed (t 3) (recapture_run F I gray)
      ∷ []

  -- The content check with the number of vision calls: none where a free hard gate fired.
  unfoldable pub content_check :
      Times
      → I.Bytes
      → Context F.Carrier I.Bytes
      → List (CheckOutcome F.Carrier)
      → CheckOutcome F.Carrier × ℕ
  content_check t image ctx free =
      if free_hard_gate_fired free
      then (skipped_content, 0)
      else (let (c, calls) = relevance_run F ctx.vision image in (timed (t 4) c, calls))

  abbrev pub row_of : Context F.Carrier I.Bytes → String → Row
  row_of ctx h = record {
    dhash = h;
    rep_id = ctx.rep_id;
    opportunity_id = ctx.opportunity_id;
    captured_at = ctx.captured_at;
  }

  -- Remember the hash after scoring.
  unfoldable pub remember_after : Context F.Carrier I.Bytes → Option String → H.Store → H.Store
  remember_after ctx none s = s
  remember_after ctx (some h) s =
      if ctx.remember_hash then H.remember ctx.tenant_id (row_of ctx h) s else s

  abbrev pub verdict_of : FusionResult F.Carrier → List (CheckOutcome F.Carrier) → Verdict F.Carrier
  verdict_of r outcomes = record {
    score = r.score;
    band = r.band;
    reason = r.reason;
    reason_code = r.reason_code;
    checks = outcomes;
    rubric_version = rubric_version;
  }

  -- `score`: the verdict, the store after it, and the number of paid vision calls.
  unfoldable pub score :
      Times → I.Bytes → Context F.Carrier I.Bytes → H.Store → Verdict F.Carrier × H.Store × ℕ
  score t image ctx s =
      let free = free_checks t image ctx s in
      let (content, calls) = content_check t image ctx free in
      let outcomes = free ++ (content ∷ []) in
      (
        verdict_of (fuse F outcomes ctx.scoring) outcomes,
        remember_after ctx (dhash_of outcomes) s,
        calls,
      )
