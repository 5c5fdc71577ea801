-- ===== src/Api/Scoring.antt =====
-- `score_bytes` of src/prooflens/api/scoring.py, the core that /v1/score and bulk scoring share,
-- and the row of a bulk job, `_score_and_record_row` of src/prooflens/service/bulk.py. `str.lower`,
-- the construction of a backend, `textwrap.shorten`, the clock and the next id are arguments.
pub mod FailOpen
mod Tests
use prooflens.Base.{
  ℕ, String, Bool, true, false, not, ◌&&◌, ◌||◌, List, [], ◌∷◌, Option, none, some, ◌⊎◌, inl, inr,
  map, or_else, is_none, nonempty, strip, str_eq, find, truthy, text_append, if◌then◌else◌,
}
use prooflens.Vision.Schema.{Attempt, returned, raised, VisionBackend, unavailable_vision}
use prooflens.Engine.Number.{Float, fsum, zero_float}
use prooflens.Engine.Types.{CheckOutcome, Verdict}
use prooflens.Engine.Imaging.{Imaging}
use prooflens.Engine.Pipeline.{HashStore, Context, Times, dhash_of, row_of, score}
use prooflens.Engine.Summarize.{summarize_decision}
use prooflens.Service.Ids.{Casing}
use prooflens.Service.Repo.{Results, record_result}
use prooflens.Service.Processor.{TenantView}

-- What the request asks to be stored with the result
pub record Attribution : Type 0 where
  pub rep_id : Option String
  pub opportunity_id : Option String
  pub source : Option String

-- The answer, without the parts of the verdict that are copied
pub record Payload (R : Type 0) : Type 0 where
  pub verdict : Verdict R
  pub result_id : ℕ
  pub processing_ms : R
  pub backend : String
  pub backend_is_real : Bool
  pub copilot_summary : String

-- The answer, or the detail of a 503, with the hashes and results after it
pub record Scored (R Store : Type 0) : Type 0 where
  pub answer : String ⊎ Payload R
  pub hashes : Store
  pub stored : Results R

-- `backend or settings.vision_backend or "groq"`
abbrev pub named_backend : Option String → String → String
named_backend backend configured =
    if nonempty (or_else backend "")
    then or_else backend ""
    else if nonempty configured
    then configured
    else "groq"

abbrev pub unavailable_detail : String → String → String
unavailable_detail name e =
    text_append "Live AI (" (text_append name (text_append ") is unavailable: " e))

module _ {R : Type 0} where
  abbrev pub latency_or : R → CheckOutcome R → R
  latency_or zero c = or_else c.latency_ms zero

  -- The content check, where the model call failed and was not skipped
  abbrev pub call_failed : Option (CheckOutcome R) → Option String
  call_failed none = none
  call_failed (some c) =
      if not c.available && truthy c.details.error
      then some (
          if nonempty (or_else c.details.detail "") then or_else c.details.detail "" else c.summary)
      else none

  unfoldable pub content_failure : Verdict R → Option String
  content_failure v = call_failed (find (λ c. str_eq c.name "content") v.checks)

module _ (F : Float) where
  -- `processing_ms` of service/repo.py
  unfoldable pub processing_ms : Verdict F.Carrier → F.Carrier
  processing_ms v = F.round1 (fsum F (map (latency_or (zero_float F)) v.checks))

module _ (F : Float) (I : Imaging F.Carrier) (H : HashStore) (C : Casing) (t : Times F I H)
    (lower : String → String) (shorten : String → String) (configured : String)
    (build_vision_backend : String → Attempt (VisionBackend I.Bytes)) where
  -- `requested`
  abbrev pub requested : Option String → String
  requested backend = lower (strip (named_backend backend configured))

  abbrev pub live_ai : Option String → Bool
  live_ai backend = not (is_none backend) && not (str_eq (requested backend) "stub")

  abbrev pub deferred :
      TenantView F.Carrier → VisionBackend I.Bytes → Attribution → Context F.Carrier I.Bytes
  deferred tenant vision who = record {
    tenant_id = tenant.id;
    vision = vision;
    scoring = tenant.scoring;
    rep_id = who.rep_id;
    opportunity_id = who.opportunity_id;
    captured_at = none;
    remember_hash = false;
  }

  -- `_remember_hash`
  abbrev pub remember_hash : Context F.Carrier I.Bytes → Option String → H.Store → H.Store
  remember_hash ctx none s = s
  remember_hash ctx (some h) s = H.remember ctx.tenant_id (row_of F I H ctx h) s

  -- A keeper verdict: the hash is remembered and the result is stored.
  abbrev pub keep :
      ℕ
      → ℕ
      → TenantView F.Carrier
      → VisionBackend I.Bytes
      → Attribution
      → Verdict F.Carrier
      → H.Store
      → Results F.Carrier
      → Scored F.Carrier H.Store
  keep rid now tenant vision who v hashes stored =
      let summary = summarize_decision shorten v in
      record {
        answer = inr (record {
          verdict = v;
          result_id = rid;
          processing_ms = processing_ms F v;
          backend = vision.name;
          backend_is_real = vision.is_real;
          copilot_summary = summary;
        });
        hashes = remember_hash (deferred tenant vision who) (dhash_of v.checks) hashes;
        stored =
            record_result C rid now (processing_ms F v) tenant.id none v who.opportunity_id
              who.rep_id who.source (some summary) stored;
      }

  abbrev pub keep_or_raise :
      Bool
      → ℕ
      → ℕ
      → TenantView F.Carrier
      → VisionBackend I.Bytes
      → Attribution
      → Verdict F.Carrier
      → Option String
      → H.Store
      → Results F.Carrier
      → Scored F.Carrier H.Store
  keep_or_raise live rid now tenant vision who v none hashes stored =
      keep rid now tenant vision who v hashes stored
  keep_or_raise live rid now tenant vision who v (some detail) hashes stored =
      if live
      then record {
        answer = inl (unavailable_detail vision.name detail);
        hashes = hashes;
        stored = stored;
      }
      else keep rid now tenant vision who v hashes stored

  -- The engine on the image, and what follows from its verdict
  abbrev pub score_with :
      Bool
      → ℕ
      → ℕ
      → I.Bytes
      → TenantView F.Carrier
      → VisionBackend I.Bytes
      → Attribution
      → H.Store
      → Results F.Carrier
      → Scored F.Carrier H.Store
  score_with live rid now image tenant vision who hashes stored =
      let (v, hashes', calls) = score F I H t image (deferred tenant vision who) hashes in
      keep_or_raise live rid now tenant vision who v (content_failure v) hashes' stored

  abbrev pub score_built :
      Option String
      → ℕ
      → ℕ
      → I.Bytes
      → TenantView F.Carrier
      → Attribution
      → Attempt (VisionBackend I.Bytes)
      → H.Store
      → Results F.Carrier
      → Scored F.Carrier H.Store
  score_built backend rid now image tenant who (returned vision) hashes stored =
      score_with (live_ai backend) rid now image tenant vision who hashes stored
  score_built backend rid now image tenant who (raised e) hashes stored =
      if is_none backend
      then score_with (live_ai backend) rid now image tenant
          (unavailable_vision (text_append (requested backend) (text_append " unavailable: " e)))
          who hashes stored
      else record {
        answer = inl (unavailable_detail (requested backend) e);
        hashes = hashes;
        stored = stored;
      }

  -- `score_bytes`
  unfoldable pub score_bytes :
      Option String
      → ℕ
      → ℕ
      → I.Bytes
      → TenantView F.Carrier
      → Attribution
      → H.Store
      → Results F.Carrier
      → Scored F.Carrier H.Store
  score_bytes backend rid now image tenant who hashes stored =
      score_built backend rid now image tenant who (build_vision_backend (requested backend)) hashes
        stored

  -- What a row of a bulk job leaves: its state is committed, or rolled back after an error.
  abbrev pub committed :
      H.Store → Results F.Carrier → Scored F.Carrier H.Store → Scored F.Carrier H.Store
  committed hashes stored r = elim r.answer [
    | inl e ↦ record r { hashes = hashes; stored = stored }
    | inr p ↦ r
  ]

  -- `_score_and_record_row`
  unfoldable pub score_and_record_row :
      Option String
      → ℕ
      → ℕ
      → I.Bytes
      → TenantView F.Carrier
      → Option String
      → Option String
      → H.Store
      → Results F.Carrier
      → Scored F.Carrier H.Store
  score_and_record_row backend rid now image tenant rep_id opportunity_id hashes stored =
      committed hashes stored (
        score_bytes backend rid now image tenant
          (record { rep_id = rep_id; opportunity_id = opportunity_id; source = some "bulk" }) hashes
          stored)
