-- ===== src/Service/Processor.antt =====
-- src/prooflens/service/processor.py: one job, from its payload to the verdict and the write-back.
-- Base64 decoding, the construction of a vision backend, the LSQ client and the print of a float
-- are arguments; so is the id, time and summary that the stored result gets.
pub mod FailOpen
pub mod Samples
mod Tests
use prooflens.Base.{
  ℕ, String, Bool, true, false, List, [], ◌∷◌, Option, none, some, ◌⊎◌, inl, inr, or_else, nonempty,
  if◌then◌else◌, Dict, lookup, string_eq, text_append,
}
use prooflens.Vision.Schema.{Attempt, returned, raised, VisionBackend, unavailable_vision}
use prooflens.Engine.Number.{Float}
use prooflens.Engine.Config.{ScoringConfig}
use prooflens.Engine.Types.{Verdict}
use prooflens.Engine.Verdicts.{band_name}
use prooflens.Engine.Imaging.{Imaging}
use prooflens.Engine.Pipeline.{HashStore, Context, Times, score}
use prooflens.Queue.Backoff.{JobError, fatal, unexpected}
use prooflens.Service.Ids.{Casing}
use prooflens.Service.Repo.{Results, record_result}

pub record JobPayload : Type 0 where
  pub image_base64 : Option String
  pub image_url : Option String
  pub rep_id : Option String
  pub opportunity_id : Option String
  pub captured_at : Option String

-- `field_map` of a tenant: the LSQ field of each of band, score and reason; `{}` by default
abbrev pub FieldMap : Type 0
FieldMap = Dict String String

pub record TenantView (R : Type 0) : Type 0 where
  pub id : String
  pub slug : String
  pub webhook_secret : String
  pub field_map : FieldMap
  pub scoring : ScoringConfig R
  pub vision_backend : String

pub record JobView : Type 0 where
  pub id : ℕ
  pub tenant_id : String
  pub event_id : String
  pub payload : JobPayload
  pub attempts : ℕ
  pub max_attempts : ℕ

-- `bool(payload.get(key))`
abbrev pub given : Option String → Bool
given text = nonempty (or_else text "")

abbrev pub decoded {ℓ} : {A : Type ℓ} → Attempt A → JobError ⊎ A
decoded (returned image) = inr image
decoded (raised e) = inl (fatal (text_append "invalid base64 image: " e))

-- `_resolve_image_bytes`
unfoldable pub resolve_image_bytes :
    {Bytes : Type 0} → (String → Attempt Bytes) → JobPayload → JobError ⊎ Bytes
resolve_image_bytes b64decode p =
    if given p.image_base64
    then decoded (b64decode (or_else p.image_base64 ""))
    else if given p.image_url
    then inl (fatal "image arrived by reference; RealLSQ image fetch is a Phase 3 TODO")
    else inl (fatal "webhook payload has no image_base64 or image_url")

-- The `try` around `build_vision_backend`
abbrev pub backend_or_unavailable :
    {Bytes : Type 0} → String → Attempt (VisionBackend Bytes) → VisionBackend Bytes
backend_or_unavailable name (returned backend) = backend
backend_or_unavailable name (raised e) =
    unavailable_vision (text_append name (text_append " unavailable: " e))

abbrev and_then {ℓ κ} : {A : Type ℓ} {B : Type κ} → JobError ⊎ A → (A → JobError ⊎ B) → JobError ⊎ B
and_then (inl e) f = inl e
and_then (inr a) f = f a

-- `fm[key]`: a missing key is a KeyError, which no handler of the processor catches.
abbrev named_field : String → Option String → JobError ⊎ String
named_field key none = inl (unexpected (text_append "'" (text_append key "'")))
named_field key (some field) = inr field

abbrev field_at : String → FieldMap → JobError ⊎ String
field_at key fm = named_field key (lookup key fm)

-- `_ordered_updates`
unfoldable pub ordered_updates :
    {R : Type 0} → (R → String) → FieldMap → Verdict R → JobError ⊎ List (String × String)
ordered_updates show fm v = and_then (field_at "band" fm) (λ band_field.
    and_then (field_at "score" fm) (λ score_field. and_then (field_at "reason" fm) (λ reason_field.
      inr (
        (band_field, band_name v.band)
        ∷ (score_field, show v.score)
        ∷ (reason_field, v.reason)
        ∷ []))))

-- What a job reads and writes: the hashes, the results, and the LSQ client's state.
pub record World (R Store L : Type 0) : Type 0 where
  pub hashes : Store
  pub stored : Results R
  pub lsq : L

module _ (F : Float) (I : Imaging F.Carrier) (H : HashStore) (C : Casing) (t : Times F I H)
    {L : Type 0} (b64decode : String → Attempt I.Bytes)
    (build_vision_backend : String → Attempt (VisionBackend I.Bytes)) (show : F.Carrier → String)
    (update_custom_fields : String → List (String × String) → L → JobError ⊎ L) where
  abbrev pub context_of : TenantView F.Carrier → JobPayload → Context F.Carrier I.Bytes
  context_of tenant p = record {
    tenant_id = tenant.id;
    vision =
        backend_or_unavailable tenant.vision_backend (build_vision_backend tenant.vision_backend);
    scoring = tenant.scoring;
    rep_id = p.rep_id;
    opportunity_id = p.opportunity_id;
    captured_at = p.captured_at;
    remember_hash = true;
  }

  -- The write-back, where the job has an opportunity
  unfoldable pub write_back : FieldMap → Option String → Verdict F.Carrier → L → JobError ⊎ L
  write_back fm opportunity_id v lsq =
      if given opportunity_id
      then and_then (ordered_updates show fm v)
          (λ updates. update_custom_fields (or_else opportunity_id "") updates lsq)
      else inr lsq

  -- The end of `process_job`: the result is recorded once LSQ has the verdict.
  abbrev pub settle :
      ℕ
      → ℕ
      → F.Carrier
      → Option String
      → JobView
      → TenantView F.Carrier
      → Verdict F.Carrier
      → H.Store
      → Results F.Carrier
      → JobError ⊎ L
      → JobError ⊎ (Verdict F.Carrier × World F.Carrier H.Store L)
  settle rid now ms summary job tenant v hashes stored (inl e) = inl e
  settle rid now ms summary job tenant v hashes stored (inr lsq) = inr (
    v,
    record {
      hashes = hashes;
      stored =
          record_result C rid now ms tenant.id (some job.id) v job.payload.opportunity_id
            job.payload.rep_id none summary stored;
      lsq = lsq;
    },
  )

  abbrev pub score_job :
      ℕ
      → ℕ
      → F.Carrier
      → Option String
      → JobView
      → TenantView F.Carrier
      → JobError ⊎ I.Bytes
      → World F.Carrier H.Store L
      → JobError ⊎ (Verdict F.Carrier × World F.Carrier H.Store L)
  score_job rid now ms summary job tenant (inl e) w = inl e
  score_job rid now ms summary job tenant (inr image) w =
      let (v, hashes, calls) = score F I H t image (context_of tenant job.payload) w.hashes in
      settle rid now ms summary job tenant v hashes w.stored
        (write_back tenant.field_map job.payload.opportunity_id v w.lsq)

  abbrev pub process_for :
      ℕ
      → ℕ
      → F.Carrier
      → Option String
      → JobView
      → Option (TenantView F.Carrier)
      → World F.Carrier H.Store L
      → JobError ⊎ (Verdict F.Carrier × World F.Carrier H.Store L)
  process_for rid now ms summary job none w =
      inl (fatal (text_append "unknown tenant " job.tenant_id))
  process_for rid now ms summary job (some tenant) w =
      score_job rid now ms summary job tenant (resolve_image_bytes b64decode job.payload) w

  -- `process_job`
  unfoldable pub process_job :
      Dict String (TenantView F.Carrier)
      → ℕ
      → ℕ
      → F.Carrier
      → Option String
      → JobView
      → World F.Carrier H.Store L
      → JobError ⊎ (Verdict F.Carrier × World F.Carrier H.Store L)
  process_job tenants rid now ms summary job w =
      process_for rid now ms summary job (lookup job.tenant_id tenants) w
